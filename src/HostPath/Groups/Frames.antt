-- ===== src/HostPath/Groups/Frames.antt =====
-- The methods on groups of snapshots leave the volumes of the state alone.
use csi.Prelude.{String, refl, ap, List, [], ◌∷◌, ◌⊎◌, inl, inr}
use csi.Exec.{Error}
use csi.State.Types.{Timestamp, Snapshot, GroupSnapshot, Resources}
use csi.State.Store.{
  Disk, get_group_snapshot_by_id, get_group_snapshot_by_name, update_snapshot, delete_snapshot,
  update_group_snapshot, delete_group_snapshot,
}
use csi.State.Laws.{resources-apply, put_snapshot, drop_snapshot, put_group, drop_group}
use csi.HostPath.Env.{Env}
use csi.HostPath.Populate.Frames.{Frames-create_snapshot_from_volume}
use csi.HostPath.Leads.{
  Frames, Frames-bind, Frames-pure, Frames-call, Frames-attempt, Frames-get_volume_by_id,
  Frames-get_snapshot_by_id, frames_rules,
}
use csi.HostPath.Snapshots.{SnapshotInfo}
use csi.HostPath.Groups.{
  matches_source_volume_ids, matches_snapshot_ids, collect, take_snapshots, group_or_reuse,
  create_volume_group_snapshot, delete_snapshots, delete_group, delete_volume_group_snapshot,
  get_volume_group_snapshot,
}

module _ {W : Type 0} (disk : Disk W) where
  Frames-update_snapshot : (v : Snapshot) → Frames (update_snapshot disk v)
  Frames-update_snapshot v = record {
    at = λ s. ap (λ (r : Resources). r.volumes) (resources-apply disk (put_snapshot v) s);
  }

  Frames-delete_snapshot : (k : String) → Frames (delete_snapshot disk k)
  Frames-delete_snapshot k = record {
    at = λ s. ap (λ (r : Resources). r.volumes) (resources-apply disk (drop_snapshot k) s);
  }

  Frames-update_group : (g : GroupSnapshot) → Frames (update_group_snapshot disk g)
  Frames-update_group g = record {
    at = λ s. ap (λ (r : Resources). r.volumes) (resources-apply disk (put_group g) s);
  }

  Frames-delete_group_snapshot : (k : String) → Frames (delete_group_snapshot disk k)
  Frames-delete_group_snapshot k = record {
    at = λ s. ap (λ (r : Resources). r.volumes) (resources-apply disk (drop_group k) s);
  }

module _ {W : Type 0} where
  Frames-group_by_id : (k : String) → Frames {W = W} (get_group_snapshot_by_id k)
  unfolding get_group_snapshot_by_id
  Frames-group_by_id k = record { at = λ s. refl }

  Frames-group_by_name : (k : String) → Frames {W = W} (get_group_snapshot_by_name k)
  unfolding get_group_snapshot_by_name
  Frames-group_by_name k = record { at = λ s. refl }

  Frames-matches_sources :
      (g : GroupSnapshot) (ids : List String) → Frames {W = W} (matches_source_volume_ids g ids)
  unfolding matches_source_volume_ids
  Frames-matches_sources g ids = record { at = λ s. refl }

  Frames-matches_snapshots :
      (g : GroupSnapshot) (ids : List String) → Frames {W = W} (matches_snapshot_ids g ids)
  unfolding matches_snapshot_ids
  Frames-matches_snapshots g ids = record { at = λ s. refl }

  Frames-collect :
      (info : Snapshot → SnapshotInfo) (ids : List String) → Frames {W = W} (collect info ids)
  unfolding collect
  Frames-collect info [] = search frames_rules
  Frames-collect info (id ∷ ids) =
      Frames-bind _ _ (Frames-get_snapshot_by_id id)
        λ s. Frames-bind _ _ (Frames-collect info ids) λ rest. Frames-pure _

module _ {W : Type 0} (env : Env W) where
  Frames-take_snapshots :
      (name group_id : String) (time : Timestamp) (ids : List String)
      → Frames (take_snapshots env name group_id time ids)
  unfolding take_snapshots
  Frames-take_snapshots name group_id time [] = search frames_rules
  Frames-take_snapshots name group_id time (volume_id ∷ ids) =
      Frames-bind _ _ (Frames-get_volume_by_id volume_id) λ vol.
        Frames-bind _ _ (Frames-call _) λ snapshot_id.
          Frames-bind _ _ (Frames-create_snapshot_from_volume env vol _) λ _.
            Frames-bind _ _ (Frames-attempt _ (Frames-update_snapshot env.disk _)) λ _.
              Frames-bind _ _ (Frames-take_snapshots name group_id time ids) λ rest. Frames-pure _

  Frames-group_or_reuse :
      (name : String) (ids : List String) (found : Error ⊎ GroupSnapshot)
      → Frames (group_or_reuse env name ids found)
  unfolding group_or_reuse
  Frames-group_or_reuse name ids (inr ex) =
      search (frames_rules, Frames-matches_sources, Frames-collect) depth 10
  Frames-group_or_reuse name ids (inl _) =
      search (frames_rules, Frames-take_snapshots, Frames-update_group) depth 12

  pub Frames-create_group :
      (name : String) (ids : List String) → Frames (create_volume_group_snapshot env name ids)
  unfolding create_volume_group_snapshot
  Frames-create_group name ids =
      search (frames_rules, Frames-group_by_name, Frames-group_or_reuse) depth 12

  Frames-delete_snapshots : (ids : List String) → Frames (delete_snapshots env ids)
  unfolding delete_snapshots
  Frames-delete_snapshots [] = search frames_rules
  Frames-delete_snapshots (id ∷ ids) =
      Frames-bind _ _ (Frames-call _)
        λ _. Frames-bind _ _ (Frames-delete_snapshot env.disk id) λ _. Frames-delete_snapshots ids

  Frames-delete_found :
      (k : String) (found : Error ⊎ GroupSnapshot) → Frames (delete_group env k found)
  unfolding delete_group
  Frames-delete_found k (inl _) = search frames_rules
  Frames-delete_found k (inr g) =
      search (frames_rules, Frames-delete_snapshots, Frames-delete_group_snapshot) depth 8

  pub Frames-delete_group : (k : String) → Frames (delete_volume_group_snapshot env k)
  unfolding delete_volume_group_snapshot
  Frames-delete_group k = search (frames_rules, Frames-group_by_id, Frames-delete_found) depth 10

  pub Frames-get_group :
      (k : String) (ids : List String) → Frames (get_volume_group_snapshot env k ids)
  unfolding get_volume_group_snapshot
  Frames-get_group k ids =
      search (frames_rules, Frames-group_by_id, Frames-matches_snapshots, Frames-collect) depth 14
