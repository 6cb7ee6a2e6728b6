-- ===== src/Endpoint/Parsing.antt =====
-- What `Parse` of pkg/endpoint/endpoint.go answers.
use csi.Prelude.{String, ◌≢◌, refl, Option, none, some, inl, inr, arith, Bool-cases}
use csi.Prelude.Cut.{cut, has_lower_prefix, cut-unix_prefix, cut-tcp_prefix}
use csi.Exec.{panicked}
use csi.Endpoint.{split_url, parse}

split_url-calm : (o : Option (String × String)) → o ≢ none → split_url o ≢ panicked
unfolding split_url
split_url-calm none found h = found refl
split_url-calm (some (proto, addr)) found h = ground arith

-- Parse never panics: an endpoint that passes the test for unix:// or tcp:// has a second part.
pub parse-calm : (ep : String) → parse ep ≢ panicked
unfolding parse
parse-calm ep h =
    let cuts = split_url-calm (cut "://" ep) in
    elim (Bool-cases (has_lower_prefix ep "unix://")) [
      | inl e ↦ cuts (cut-unix_prefix ep e) (ground arith)
      | inr e ↦ elim (Bool-cases (has_lower_prefix ep "tcp://")) [
        | inl e' ↦ cuts (cut-tcp_prefix ep e') (ground arith)
        | inr e' ↦ ground arith
      ]
    ]
