-- ===== src/HostPath/Snapshots/Frames.antt =====
-- `CreateSnapshot` and `DeleteSnapshot` leave the volumes of the state alone.
use csi.Prelude.{String, refl, ap, ◌⊎◌, inl, inr}
use csi.Exec.{Error}
use csi.State.Types.{Volume, Snapshot, Resources}
use csi.State.Store.{Disk, get_snapshot_by_name, update_snapshot, delete_snapshot}
use csi.State.Laws.{resources-apply, put_snapshot, drop_snapshot}
use csi.HostPath.Env.{Env}
use csi.HostPath.Populate.Frames.{Frames-create_snapshot_from_volume}
use csi.HostPath.Leads.{Frames, frames_rules}
use csi.HostPath.Snapshots.{
  take_snapshot, snapshot_or_reuse, create_snapshot, refuse_group_member, delete_hostpath_snapshot,
}

module _ {W : Type 0} (disk : Disk W) where
  Frames-update_snapshot : (v : Snapshot) → Frames (update_snapshot disk v)
  Frames-update_snapshot v = record {
    at = λ s. ap (λ (r : Resources). r.volumes) (resources-apply disk (put_snapshot v) s);
  }

  Frames-delete_snapshot : (k : String) → Frames (delete_snapshot disk k)
  Frames-delete_snapshot k = record {
    at = λ s. ap (λ (r : Resources). r.volumes) (resources-apply disk (drop_snapshot k) s);
  }

module _ {W : Type 0} where
  Frames-get_snapshot_by_name : (k : String) → Frames {W = W} (get_snapshot_by_name k)
  unfolding get_snapshot_by_name
  Frames-get_snapshot_by_name k = record { at = λ s. refl }

module _ {W : Type 0} (env : Env W) where
  Frames-take_snapshot :
      (name source_volume_id : String) (vol : Volume)
      → Frames (take_snapshot env name source_volume_id vol)
  unfolding take_snapshot
  Frames-take_snapshot name source_volume_id vol =
      search (frames_rules, Frames-create_snapshot_from_volume, Frames-update_snapshot) depth 12

  Frames-snapshot_or_reuse :
      (name source_volume_id : String) (found : Error ⊎ Snapshot)
      → Frames (snapshot_or_reuse env name source_volume_id found)
  unfolding snapshot_or_reuse
  Frames-snapshot_or_reuse name source_volume_id (inl _) =
      search (frames_rules, Frames-take_snapshot) depth 8
  Frames-snapshot_or_reuse name source_volume_id (inr ex) = search frames_rules depth 8

  pub Frames-create_snapshot :
      (name source_volume_id : String) → Frames (create_snapshot env name source_volume_id)
  unfolding create_snapshot
  Frames-create_snapshot name source_volume_id =
      search (frames_rules, Frames-get_snapshot_by_name, Frames-snapshot_or_reuse) depth 12

  Frames-refuse_group_member : (found : Error ⊎ Snapshot) → Frames (refuse_group_member env found)
  unfolding refuse_group_member
  Frames-refuse_group_member (inl _) = search frames_rules
  Frames-refuse_group_member (inr _) = search frames_rules

  pub Frames-delete_snapshot_request :
      (snapshot_id : String) → Frames (delete_hostpath_snapshot env snapshot_id)
  unfolding delete_hostpath_snapshot
  Frames-delete_snapshot_request snapshot_id =
      search (frames_rules, Frames-refuse_group_member, Frames-delete_snapshot) depth 14
