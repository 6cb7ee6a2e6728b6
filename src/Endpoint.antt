-- ===== src/Endpoint.antt =====
-- `Parse` of pkg/endpoint/endpoint.go; `Listen` is in Endpoint.Listening.
pub mod Parsing
pub mod Listening
use csi.Prelude.{String, Bool, true, false, ◌||◌, Option, none, some, ◌==◌, if◌then◌else◌}
use csi.Prelude.Cut.{cut, has_lower_prefix}
use csi.Exec.{Result, ok, err, panicked, formatted}

-- `s[0]` and `s[1]` of the text split at its first "://". Without a second part the index panics.
split_url : Option (String × String) → Result (String × String)
split_url none = panicked
split_url (some (proto, addr)) = if addr == "" then err formatted else ok (proto, addr)

-- `Parse`
unfoldable pub parse : String → Result (String × String)
unfolding split_url
parse ep =
    if has_lower_prefix ep "unix://" || has_lower_prefix ep "tcp://"
    then split_url (cut "://" ep)
    else ok ("unix", ep)
