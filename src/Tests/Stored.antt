-- ===== src/Tests/Stored.antt =====
-- The state and the quota helper, on concrete inputs.
use csi.Prelude.{
  ℕ, zero, suc, ◌^◌, ◌≤◌, ◌<◌, String, ◌≡◌, ◌↔◌, refl, true, false, Option, none, some, List, [],
  ◌∷◌, ◌==◌, ite, arith, ℕ_discrete, String-discrete, if◌then◌else◌,
}
use mathlib.Core.List.{Perm}
use csi.Exec.{ok}
use csi.State.Types.{AccessType-discrete, Resources}
use csi.State.Store.{
  Disk, IsFaithful, no_resources, new, restore, dump, update_volume, update_snapshot,
}
use csi.State.Table.{find, upsert}
use csi.State.Laws.{
  put_volume, put_snapshot, drop_volume, after, apply, apply_all, restart-apply_all,
}
use csi.State.Spec.{IsWellFormed, view, spec, view-apply}
use csi.State.EqualIds.{equal_ids, equal_ids_lem}
use csi.Xfs.Ids.{in_use, generate_id, IsFresh, generate_id-IsFresh, generate_id-endless}
use csi.Tests.{
  World, a_volume, a_snapshot, with_volume, empty_store, one_volume, easy_disk, write_file,
  read_file,
}

Resources-discrete : Discrete Resources
Resources-discrete = hlevel (AccessType-discrete, ℕ_discrete, String-discrete)

only_volume : Resources
only_volume = record { volumes = a_volume ∷ []; snapshots = []; group_snapshots = [] }

marshal : Resources → Option String
unfolding Resources-discrete only_volume
marshal r =
    if ite (Resources-discrete r only_volume) true false
    then some "volume"
    else if ite (Resources-discrete r with_volume) true false
    then some "both"
    else none

unmarshal : String → Option Resources
unmarshal text =
    if text == "volume" then some only_volume else if text == "both" then some with_volume else none

-- A disk that can encode two states.
abbrev two_states : Disk World
two_states = record {
  marshal = marshal;
  unmarshal = unmarshal;
  write_file = write_file;
  read_file = read_file;
}

unmarshal-volume : unmarshal "volume" ≡ some only_volume
unfolding unmarshal String-discrete
unmarshal-volume = refl

unmarshal-both : unmarshal "both" ≡ some with_volume
unfolding unmarshal String-discrete
unmarshal-both = refl

decoded :
    (r : Resources) (text : String) (d : Dec (r ≡ only_volume)) (e : Dec (r ≡ with_volume))
    → (if ite d true false then some "volume" else if ite e true false then some "both" else none)
      ≡ some text
    → unmarshal text ≡ some r
decoded r text (yes p) e h = ground (arith, unmarshal-volume)
decoded r text (no _) (yes p) h = ground (arith, unmarshal-both)
decoded r text (no _) (no _) h = ground arith

two_states-IsFaithful : IsFaithful two_states
unfolding marshal
two_states-IsFaithful = record {
  unmarshal-marshal = λ r text h.
      decoded r text (Resources-discrete r only_volume) (Resources-discrete r with_volume) h;
  read-write = λ path text w h. refl;
}

restart-apply_all_example :
    let changes = put_volume a_volume ∷ put_snapshot a_snapshot ∷ [] in
    let t = (apply_all two_states changes empty_store).1 in
    ((new two_states t.statefile_path t.world).0 ≡ ok tt)
    × ((new two_states t.statefile_path t.world).1.resources ≡ after changes no_resources)
unfolding new restore apply_all marshal Resources-discrete update_volume update_snapshot dump upsert
    String-discrete ℕ_discrete AccessType-discrete
restart-apply_all_example =
    restart-apply_all two_states two_states-IsFaithful
      (put_volume a_volume ∷ put_snapshot a_snapshot ∷ []) empty_store (refl, refl) refl

view-apply_example :
    (view (apply easy_disk (drop_volume "v1") one_volume).1.resources
      ≡ spec (drop_volume "v1") (view with_volume))
    × IsWellFormed (apply easy_disk (drop_volume "v1") one_volume).1.resources
unfolding find
view-apply_example =
    view-apply easy_disk (drop_volume "v1") one_volume
      (record { volumes = (refl, tt); snapshots = (refl, tt); group_snapshots = tt })

equal_ids_lem_example :
    (((equal_ids ("b" ∷ "a" ∷ []) ("a" ∷ "b" ∷ [])).equal ≡ true)
      ↔ Perm {A = String} ("b" ∷ "a" ∷ []) ("a" ∷ "b" ∷ []))
    × Perm {A = String} (equal_ids ("b" ∷ "a" ∷ []) ("a" ∷ "b" ∷ [])).left ("b" ∷ "a" ∷ [])
    × Perm {A = String} (equal_ids ("b" ∷ "a" ∷ []) ("a" ∷ "b" ∷ [])).right ("a" ∷ "b" ∷ [])
equal_ids_lem_example = equal_ids_lem ("b" ∷ "a" ∷ []) ("a" ∷ "b" ∷ [])

generate_id-IsFresh_example :
    (i : ℕ) × (generate_id 65535 (1 ∷ 3 ∷ []) ≡ some i) × (1 ≤ i) × (i ≤ 4) × IsFresh i (1 ∷ 3 ∷ [])
unfolding in_use
generate_id-IsFresh_example =
    generate_id-IsFresh 4 (1 ∷ 3 ∷ []) (omega arith) (omega arith) (refl, ground arith)

below : ℕ → List ℕ
below zero = []
below (suc n) = n ∷ below n

below-in_use : (n i : ℕ) → i < n → in_use i (below n) ≡ true
unfolding below in_use
below-in_use zero i h = absurd (omega arith)
below-in_use (suc n) i h = ground (arith, below-in_use n i)

generate_id-endless_example : generate_id 70000 (below (2 ^ 16)) ≡ none
generate_id-endless_example =
    generate_id-endless 70000 (below (2 ^ 16)) (λ i h _. below-in_use (2 ^ 16) i h)
