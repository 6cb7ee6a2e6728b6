-- ===== src/HostPath/Listing/Pages.antt =====
-- What a page of `ListSnapshots` holds.
use csi.Prelude.{
  ltb, ℕ, zero, suc, ◌+◌, ◌-◌, ◌≤◌, ◌<◌, ◌^◌, ◌≡◌, ◌≢◌, refl, false, some, List, [], ◌∷◌, length,
  take, drop, drop-suc, has_elem, arith, if◌then◌else◌, map,
}
use csi.Prelude.Int.{ℤ, pos, negsuc, ◌+ℤ◌, ◌-ℤ◌}
use csi.Prelude.Parse.{parse_uint32, parse_uint32-lt, int32}
use csi.Prelude.Decimal.{decimal, decimal_ℤ}
use csi.Exec.{ok, panicked}
use csi.HostPath.Snapshots.{SnapshotInfo, listed_info, ListSnapshotsRequest, ListSnapshotsResponse}
use csi.Prelude.Sort.{sort, length-sort}
use csi.State.Types.{Snapshot}
use csi.State.Store.{snapshot_key}
use csi.HostPath.Listing.{
  at_index, cons_page, fill, next_token, page, fill_entries, is_zero, list_from, list_all,
  starting_index,
}

pos-suc : (j : ℕ) → pos j +ℤ pos 1 ≡ pos (suc j)
unfolding ◌+ℤ◌
pos-suc j = ground arith

pub length-map : {A : Type 0} (f : A → SnapshotInfo) (xs : List A) → length (map f xs) ≡ length xs
length-map f [] = refl
length-map f (x ∷ xs) = rw (length-map f xs) refl

fill-take :
    (xs : List SnapshotInfo) (n j : ℕ)
    → j + n ≤ length xs
    → fill xs n (pos j) ≡ some (take n (drop j xs))
unfolding fill at_index cons_page
fill-take xs zero j h = refl
fill-take xs (suc n) j h =
    let (x, e) = has_elem j xs (omega arith) in
    rw (pos-suc j, e, fill-take xs n (suc j) (omega arith), drop-suc j xs x e) refl

-- An int32 that is not negative is itself.
pub int32_self : (n : ℕ) → n < 2 ^ 31 → int32 (pos n) ≡ pos n
unfolding int32
int32_self n h = ground arith

pos-sub : (n i : ℕ) → i ≤ n → pos n -ℤ pos i ≡ pos (n - i)
unfolding ◌-ℤ◌
pos-sub n i h = ground arith

-- How many entries a page has.
abbrev pub page_size : ℕ → ℕ → ℕ
page_size rest zero = rest
page_size rest (suc m) = if ltb rest (suc m) then rest else suc m

-- The page of at most `k` entries from the index `i` on.
abbrev pub page_at : List SnapshotInfo → ℕ → ℕ → ListSnapshotsResponse
page_at xs i k = record {
  entries = take k (drop i xs);
  next_token = if ltb (i + k) (length xs) then decimal (i + k) else "";
}

pos-add : (i k : ℕ) → pos i +ℤ pos k ≡ pos (i + k)
unfolding ◌+ℤ◌
pos-add i k = ground arith

fill_entries-page_at :
    (xs : List SnapshotInfo) (i k : ℕ)
    → i + k ≤ length xs
    → fill_entries xs (pos k) (pos i) (pos (length xs)) ≡ ok (page_at xs i k)
unfolding fill_entries page next_token decimal_ℤ
fill_entries-page_at xs i k h = rw (fill-take xs k i h, pos-add i k) (ground arith)

-- Of fewer than 2³¹ snapshots, a request for the page at a valid index answers the entries from
-- that index on, all that are left if no maximum is given, else at most the maximum, and the next
-- token is the index after them if any are left over.
pub list_from-page_at :
    (xs : List SnapshotInfo) (i m : ℕ)
    → i ≤ length xs
    → length xs < 2 ^ 31
    → list_from xs (pos i) (pos m) ≡ ok (page_at xs i (page_size (length xs - i) m))
unfolding list_from is_zero
list_from-page_at xs i zero h b =
    rw (int32_self (length xs) b, pos-sub (length xs) i h, int32_self (length xs - i) (omega arith))
      (ground (arith, fill_entries-page_at xs i (length xs - i)))
list_from-page_at xs i (suc m) h b =
    rw (int32_self (length xs) b, pos-sub (length xs) i h, int32_self (length xs - i) (omega arith))
      (ground (arith, fill_entries-page_at xs i (length xs - i), fill_entries-page_at xs i (suc m)))

int32-negative : (i : ℕ) → 2 ^ 31 ≤ i → i < 2 ^ 32 → int32 (pos i) ≡ negsuc (2 ^ 32 - i - 1)
unfolding int32
int32-negative i h b = ground arith

-- The entries that are left after a negative index are not none, as int32 counts them.
rest-nonzero : (n k : ℕ) → n < 2 ^ 31 → k < 2 ^ 31 → is_zero (int32 (pos n -ℤ negsuc k)) ≡ false
unfolding int32 ◌-ℤ◌ is_zero
rest-nonzero n k h b = ground arith

fill_entries-panicked :
    (xs : List SnapshotInfo) (k : ℕ) (count n : ℤ)
    → is_zero count ≡ false
    → fill_entries xs count (negsuc k) n ≡ panicked
unfolding fill_entries fill page at_index cons_page is_zero
fill_entries-panicked xs k (negsuc c) n h = refl
fill_entries-panicked xs k (pos zero) n h = ground arith
fill_entries-panicked xs k (pos (suc c)) n h = refl

list_from-panicked :
    (xs : List SnapshotInfo) (k : ℕ) (max : ℤ)
    → k < 2 ^ 31
    → length xs < 2 ^ 31
    → list_from xs (negsuc k) max ≡ panicked
unfolding list_from
list_from-panicked xs k max h b =
    let rest = int32 (pos (length xs) -ℤ negsuc k) in
    rw (int32_self (length xs) b) (
      ground (
        arith,
        fill_entries-panicked xs k rest (pos (length xs)) (rest-nonzero (length xs) k b h),
        fill_entries-panicked xs k max (pos (length xs)),
      ))

-- Of fewer than 2³¹ snapshots, a starting token from 2³¹ on is accepted as a uint32, becomes a
-- negative index, and makes the call panic whatever the maximum number of entries.
pub list_all-panicked :
    (snapshots : List Snapshot) (req : ListSnapshotsRequest) (i : ℕ)
    → req.starting_token ≢ ""
    → parse_uint32 req.starting_token ≡ some i
    → 2 ^ 31 ≤ i
    → length snapshots < 2 ^ 31
    → list_all snapshots req ≡ panicked
unfolding list_all starting_index
list_all-panicked snapshots req i token parsed large few =
    let sorted = map listed_info (sort snapshot_key snapshots) in
    let bound = parse_uint32-lt req.starting_token parsed in
    let panics = list_from-panicked sorted (2 ^ 32 - i - 1) req.max_entries (omega arith) (
      rw (length-map listed_info (sort snapshot_key snapshots), length-sort snapshot_key snapshots)
        few) in
    ground (arith, int32-negative i large bound, panics)
