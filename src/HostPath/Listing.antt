-- ===== src/HostPath/Listing.antt =====
-- `ListSnapshots` of pkg/hostpath/controllerserver.go.
pub mod Pages
pub mod Walk
use csi.Prelude.{
  ℕ, zero, suc, String, Bool, true, false, not, ◌||◌, Option, none, some, List, [], ◌∷◌, ◌==◌, map,
  length, get_elem?, if◌then◌else◌,
}
use csi.Prelude.Int.{ℤ, pos, negsuc, ◌+ℤ◌, ◌-ℤ◌, ltb_ℤ}
use csi.Prelude.Sort.{sort}
use csi.Prelude.Decimal.{decimal_ℤ}
use csi.Prelude.Parse.{parse_uint32, int32}
use csi.Exec.{Result, ok, err, panicked, status, aborted}
use csi.State.Types.{Snapshot}
use csi.State.Table.{find}
use csi.State.Store.{Store, get_snapshots, snapshot_key}
use csi.HostPath.Env.{Env}
use csi.HostPath.Capabilities.{Capability, validate_controller_service_request}
use csi.HostPath.Snapshots.{SnapshotInfo, listed_info, ListSnapshotsRequest, ListSnapshotsResponse}

abbrev pub no_entries : ListSnapshotsResponse
no_entries = record { entries = []; next_token = "" }

-- `convertSnapshot`
unfoldable pub convert_snapshot : Snapshot → ListSnapshotsResponse
convert_snapshot s = record { entries = listed_info s ∷ []; next_token = "" }

abbrev one_or_none : Option Snapshot → ListSnapshotsResponse
one_or_none none = no_entries
one_or_none (some s) = convert_snapshot s

-- `snapshots[j]`; an index that is out of range panics.
at_index : List SnapshotInfo → ℤ → Option SnapshotInfo
at_index xs (pos j) = get_elem? xs j
at_index xs (negsuc _) = none

cons_page : Option SnapshotInfo → Option (List SnapshotInfo) → Option (List SnapshotInfo)
cons_page none rest = none
cons_page (some x) none = none
cons_page (some x) (some xs) = some (x ∷ xs)

-- The loop that fills the entries, from `j` on; `none` is the panic.
unfoldable pub fill : List SnapshotInfo → ℕ → ℤ → Option (List SnapshotInfo)
unfolding at_index cons_page
fill snapshots zero j = some []
fill snapshots (suc n) j = cons_page (at_index snapshots j) (fill snapshots n (j +ℤ pos 1))

next_token : ℤ → ℤ → String
next_token j n = if ltb_ℤ j n then decimal_ℤ j else ""

page : Option (List SnapshotInfo) → ℤ → ℤ → Result ListSnapshotsResponse
unfolding next_token
page none j n = panicked
page (some entries) j n = ok (record { entries = entries; next_token = next_token j n })

-- `make` with a negative length panics too.
fill_entries : List SnapshotInfo → ℤ → ℤ → ℤ → Result ListSnapshotsResponse
unfolding page
fill_entries snapshots (negsuc _) start n = panicked
fill_entries snapshots (pos max) start n = page (fill snapshots max start) (start +ℤ pos max) n

is_zero : ℤ → Bool
is_zero (pos zero) = true
is_zero _ = false

-- The page of `snapshots` that starts at `start`; all numbers are int32.
unfoldable pub list_from : List SnapshotInfo → ℤ → ℤ → Result ListSnapshotsResponse
unfolding fill_entries is_zero
list_from snapshots start max_entries =
    let n = int32 (pos (length snapshots)) in
    let rem = int32 (n -ℤ start) in
    if ltb_ℤ n start
    then err (status aborted)
    else fill_entries snapshots
        (if is_zero max_entries || ltb_ℤ rem max_entries then rem else max_entries) start n

-- The starting token, a uint32 that is converted to an int32.
unfoldable pub starting_index : String → Option ℤ
starting_index token =
    if token == ""
    then some (pos 0)
    else elim (parse_uint32 token) [ none ↦ none | some i ↦ some (int32 (pos i)) ]

unfoldable pub list_all : List Snapshot → ListSnapshotsRequest → Result ListSnapshotsResponse
unfolding list_from starting_index
list_all snapshots req = elim (starting_index req.starting_token) [
  | none ↦ err (status aborted)
  | some start ↦ list_from (map listed_info (sort snapshot_key snapshots)) start req.max_entries
]

-- `ListSnapshots`, of the snapshots of the state, past the check of the capability
unfoldable pub list_stored : List Snapshot → ListSnapshotsRequest → Result ListSnapshotsResponse
unfolding list_all
list_stored snapshots req =
    if not (req.snapshot_id == "")
    then ok (one_or_none (find snapshot_key req.snapshot_id snapshots))
    else if not (req.source_volume_id == "")
    then ok (one_or_none (find (λ s. s.vol_id) req.source_volume_id snapshots))
    else list_all snapshots req

module _ {W : Type 0} (env : Env W) where
  unfoldable pub list_snapshots : ListSnapshotsRequest → Store W → Result ListSnapshotsResponse
  unfolding list_stored
  list_snapshots req s =
      elim (validate_controller_service_request env.config Capability.list_snapshots) [
        | ok _ ↦ list_stored (get_snapshots s) req
        | err e ↦ err e
        | panicked ↦ panicked
      ]
