-- ===== src/Proxy/Traffic/Kept.antt =====
-- No step of a proxy's goroutines, of a client or of the proxy's owner breaks the invariant
-- (pkg/proxy/proxy.go).
use csi.Prelude.{refl, arith}
use mathlib.Core.List.{append_assoc, append-nil}
use csi.Proxy.Traffic.{
  Traffic, start, accept_first, establish, shut_down, copy_chunk, return_copy, close_to, send,
  send_eof, Accepts, takes_first, fails_first, retries_first, stops_first, takes_second,
  fails_second, retries_second, stops_second, Copies, chunk, whole, part, closes, Others, cancels,
  closes_first, closes_second, sends, finishes, Step, acceptor, copier, other, Reach, here, next,
}
use csi.Proxy.Traffic.Invariant.{Inv, Forwards-send, Forwards-part}

start-Inv : Inv start
start-Inv = record {
  order1 = λ h. cc;
  order2 = λ h. cc;
  stops = λ h. cc;
  held = λ c h. cc;
  pair = λ i j h. cc;
  alone = λ i h. record {
    nothing = refl;
    kept = refl;
    unpaired = refl;
    settled = λ l. absurd (omega arith);
  };
}

module _ {t : Traffic} (inv : Inv t) where
  open inv use {order1, order2, stops, held, pair, alone}

  Others-Inv : {u : Traffic} → Others t u → Inv u
  unfolding send send_eof
  Others-Inv cancels = record {
    order1 = λ h. refl;
    order2 = order2;
    stops = λ h. refl;
    held = held;
    pair = pair;
    alone = alone;
  }
  Others-Inv (closes_first d) = record {
    order1 = λ h. d;
    order2 = λ h. refl;
    stops = stops;
    held = held;
    pair = pair;
    alone = alone;
  }
  Others-Inv (closes_second d) = record {
    order1 = order1;
    order2 = λ h. d;
    stops = stops;
    held = held;
    pair = pair;
    alone = alone;
  }
  Others-Inv (sends c bytes l e) = record {
    order1 = order1;
    order2 = order2;
    stops = stops;
    held = λ k h. ground (arith, held k h);
    pair = λ i j h. ground (
      arith,
      pair i j,
      Forwards-send (t.conn i).phase (t.conn i).sent (t.conn i).unread (t.conn j).received bytes
          (t.conn i).eof,
    );
    alone = λ i h. ground (arith, alone i);
  }
  Others-Inv (finishes c l) = record {
    order1 = order1;
    order2 = order2;
    stops = stops;
    held = λ k h. ground (arith, held k h);
    pair = λ i j h. ground (arith, pair i j);
    alone = λ i h. ground (arith, alone i);
  }

  Accepts-Inv : {u : Traffic} → Accepts t u → Inv u
  unfolding accept_first establish shut_down
  Accepts-Inv (takes_first a o) = record {
    order1 = order1;
    order2 = order2;
    stops = λ h. cc;
    held = λ k h. ground (arith, held k);
    pair = λ i j h. ground (arith, pair i j, pair j i);
    alone = λ i h. ground (arith, alone i);
  }
  Accepts-Inv (fails_first a) = record {
    order1 = order1;
    order2 = order2;
    stops = λ h. cc;
    held = λ k h. ground (arith, held k);
    pair = pair;
    alone = λ i h. ground (arith, alone i);
  }
  Accepts-Inv (retries_first a d) = record {
    order1 = order1;
    order2 = order2;
    stops = λ h. cc;
    held = λ k h. ground (arith, held k);
    pair = pair;
    alone = λ i h. ground (arith, alone i);
  }
  Accepts-Inv (stops_first a d) = record {
    order1 = order1;
    order2 = order2;
    stops = λ h. d;
    held = λ k h. ground (arith, held k);
    pair = pair;
    alone = λ i h. ground (arith, alone i);
  }
  Accepts-Inv (takes_second c a o) = record {
    order1 = order1;
    order2 = order2;
    stops = λ h. cc;
    held = λ k h. cc;
    pair = λ i j h. ground (arith, held c, pair i j, pair j i, alone c);
    alone = λ i h. ground (arith, alone i, held c);
  }
  Accepts-Inv (fails_second c a) = record {
    order1 = order1;
    order2 = order2;
    stops = λ h. cc;
    held = λ k h. ground (arith, held k);
    pair = pair;
    alone = λ i h. ground (arith, alone i);
  }
  Accepts-Inv (retries_second c a d) = record {
    order1 = order1;
    order2 = order2;
    stops = λ h. cc;
    held = λ k h. ground (arith, held k);
    pair = pair;
    alone = λ i h. ground (arith, alone i);
  }
  Accepts-Inv (stops_second c a d) = record {
    order1 = order1;
    order2 = order2;
    stops = λ h. d;
    held = λ k h. cc;
    pair = λ i j h. ground (arith, held c, pair i j, pair j i, alone c);
    alone = λ i h. ground (arith, alone i, held c);
  }

  Copies-Inv : {u : Traffic} → Copies t u → Inv u
  unfolding copy_chunk return_copy close_to
  Copies-Inv (chunk c d bytes rest p f o1 o2 e) = record {
    order1 = order1;
    order2 = order2;
    stops = stops;
    held = λ k h. ground (arith, held k, pair c d);
    pair = λ i j h.
        ground (arith, pair c d, pair i j, pair j i, append_assoc (t.conn d).received bytes rest);
    alone = λ i h. ground (arith, alone i, pair c d);
  }
  Copies-Inv (whole c d p f o e q) = record {
    order1 = order1;
    order2 = order2;
    stops = stops;
    held = λ k h. ground (arith, held k, pair c d);
    pair = λ i j h. ground (arith, pair c d, pair i j, pair j i, append-nil (t.conn j).received);
    alone = λ i h. ground (arith, alone i, pair c d);
  }
  Copies-Inv (part c d lost rest p f e) = record {
    order1 = order1;
    order2 = order2;
    stops = stops;
    held = λ k h. ground (arith, held k, pair c d);
    pair = λ i j h. ground (
      arith,
      pair i j,
      pair j i,
      Forwards-part (t.conn i).phase (t.conn i).sent (t.conn i).unread (t.conn j).received rest
          (t.conn i).eof,
    );
    alone = λ i h. ground (arith, alone i, pair c d);
  }
  Copies-Inv (closes c d flag p f) = record {
    order1 = order1;
    order2 = order2;
    stops = stops;
    held = λ k h. ground (arith, held k, pair c d);
    pair = λ i j h. ground (arith, pair c d, pair i j, pair j i);
    alone = λ i h. ground (arith, alone i, pair c d);
  }

  step-Inv : {u : Traffic} → Step t u → Inv u
  step-Inv (acceptor m) = Accepts-Inv m
  step-Inv (copier m) = Copies-Inv m
  step-Inv (other m) = Others-Inv m

pub Reach-Inv : {t : Traffic} → Reach t → Inv t
Reach-Inv here = start-Inv
Reach-Inv (next r m) = step-Inv (Reach-Inv r) m
