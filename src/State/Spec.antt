-- ===== src/State/Spec.antt =====
-- The abstract view of the state: three finite maps from IDs, in which the order of the slices is
-- forgotten.
use mathlib.Core.Path.{fun_ext}
use csi.Prelude.{String, ◌≡◌, Option, none, some, ◌==◌, if◌then◌else◌}
use csi.State.Types.{Volume, Snapshot, GroupSnapshot, Resources}
use csi.State.Table.{find, find-upsert, find-erase, Distinct, upsert-Distinct, erase-Distinct}
use csi.State.Store.{Store, Disk, volume_key, snapshot_key, group_key}
use csi.State.Laws.{
  Change, put_volume, drop_volume, put_snapshot, drop_snapshot, put_group, drop_group, effect,
  apply, resources-apply,
}

-- No ID occurs twice.
pub record IsWellFormed (r : Resources) : Type 0 where
  pub volumes : Distinct volume_key r.volumes
  pub snapshots : Distinct snapshot_key r.snapshots
  pub group_snapshots : Distinct group_key r.group_snapshots

pub effect-IsWellFormed : (c : Change) {r : Resources} → IsWellFormed r → IsWellFormed (effect c r)
effect-IsWellFormed (put_volume v) {r} h = record {
  volumes = upsert-Distinct volume_key v r.volumes h.volumes;
  snapshots = h.snapshots;
  group_snapshots = h.group_snapshots;
}
effect-IsWellFormed (drop_volume k) {r} h = record {
  volumes = erase-Distinct volume_key k r.volumes h.volumes;
  snapshots = h.snapshots;
  group_snapshots = h.group_snapshots;
}
effect-IsWellFormed (put_snapshot v) {r} h = record {
  volumes = h.volumes;
  snapshots = upsert-Distinct snapshot_key v r.snapshots h.snapshots;
  group_snapshots = h.group_snapshots;
}
effect-IsWellFormed (drop_snapshot k) {r} h = record {
  volumes = h.volumes;
  snapshots = erase-Distinct snapshot_key k r.snapshots h.snapshots;
  group_snapshots = h.group_snapshots;
}
effect-IsWellFormed (put_group v) {r} h = record {
  volumes = h.volumes;
  snapshots = h.snapshots;
  group_snapshots = upsert-Distinct group_key v r.group_snapshots h.group_snapshots;
}
effect-IsWellFormed (drop_group k) {r} h = record {
  volumes = h.volumes;
  snapshots = h.snapshots;
  group_snapshots = erase-Distinct group_key k r.group_snapshots h.group_snapshots;
}

pub record Maps : Type 0 where
  pub volume : String → Option Volume
  pub snapshot : String → Option Snapshot
  pub group : String → Option GroupSnapshot

abbrev pub view : Resources → Maps
view r = record {
  volume = λ k. find volume_key k r.volumes;
  snapshot = λ k. find snapshot_key k r.snapshots;
  group = λ k. find group_key k r.group_snapshots;
}

abbrev pub write : {A : Type 0} → String → Option A → (String → Option A) → String → Option A
write k v m j = if k == j then v else m j

-- The contract of the interface: set a key, or remove it if it is there.
abbrev pub spec : Change → Maps → Maps
spec (put_volume v) m = record m { volume = write v.vol_id (some v) m.volume }
spec (drop_volume k) m = record m { volume = write k none m.volume }
spec (put_snapshot v) m = record m { snapshot = write v.id (some v) m.snapshot }
spec (drop_snapshot k) m = record m { snapshot = write k none m.snapshot }
spec (put_group v) m = record m { group = write v.id (some v) m.group }
spec (drop_group k) m = record m { group = write k none m.group }

view-effect : (c : Change) (r : Resources) → IsWellFormed r → view (effect c r) ≡ spec c (view r)
view-effect (put_volume v) r h =
    λ i. record (view r) { volume = fun_ext (λ k. find-upsert volume_key k v r.volumes) i }
view-effect (drop_volume k) r h =
    λ i. record (view r) { volume = fun_ext (λ j. find-erase volume_key j k r.volumes h.volumes) i }
view-effect (put_snapshot v) r h =
    λ i. record (view r) { snapshot = fun_ext (λ k. find-upsert snapshot_key k v r.snapshots) i }
view-effect (drop_snapshot k) r h = λ i. record (view r) {
  snapshot = fun_ext (λ j. find-erase snapshot_key j k r.snapshots h.snapshots) i;
}
view-effect (put_group v) r h =
    λ i. record (view r) { group = fun_ext (λ k. find-upsert group_key k v r.group_snapshots) i }
view-effect (drop_group k) r h = λ i. record (view r) {
  group = fun_ext (λ j. find-erase group_key j k r.group_snapshots h.group_snapshots) i;
}

module _ {W : Type 0} (disk : Disk W) where
  -- On resources in which no ID occurs twice, each of the six methods that change the state does
  -- to the three maps what the interface says, and no ID occurs twice afterwards, also when the
  -- state file could not be written.
  pub view-apply :
      (c : Change) (s : Store W)
      → IsWellFormed s.resources
      → (view (apply disk c s).1.resources ≡ spec c (view s.resources))
        × IsWellFormed (apply disk c s).1.resources
  view-apply c s h =
      rw (resources-apply disk c s) (view-effect c s.resources h, effect-IsWellFormed c h)
