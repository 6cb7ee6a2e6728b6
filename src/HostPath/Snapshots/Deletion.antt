-- ===== src/HostPath/Snapshots/Deletion.antt =====
-- `DeleteSnapshot` and the groups of snapshots.
use csi.Prelude.{String, ◌≡◌, ◌≢◌, ap, List, arith}
use csi.Exec.{ok}
use csi.State.Types.{Snapshot, Resources}
use csi.State.Table.{erase}
use csi.State.Laws.{resources-apply, drop_snapshot}
use csi.State.Store.{Store, snapshot_key, get_snapshot_by_id, delete_snapshot}
use csi.HostPath.Env.{Env, call, get_snapshot_path}
use csi.HostPath.Capabilities.{create_delete_snapshot, validate_controller_service_request}
use csi.HostPath.Snapshots.{refuse_group_member, delete_hostpath_snapshot}

module _ {W : Type 0} (env : Env W) where
  snapshots_of : Store W → List Snapshot
  snapshots_of s = s.resources.snapshots

  deleted-snapshots :
      (k : String) (s : Store W)
      → (delete_snapshot env.disk k s).1.resources.snapshots
        ≡ erase snapshot_key k s.resources.snapshots
  deleted-snapshots k s =
      ap (λ (r : Resources). r.snapshots) (resources-apply env.disk (drop_snapshot k) s)

  -- A driver with the capability deletes every snapshot that it is asked to delete, a member of a
  -- group too: the state loses the first snapshot of that ID, if any, and keeps all others, also
  -- when the state file could not be written.
  pub delete_snapshot-unprotected :
      (k : String) (s : Store W)
      → k ≢ ""
      → validate_controller_service_request env.config create_delete_snapshot ≡ ok tt
      → (delete_hostpath_snapshot env k s).1.resources.snapshots
        ≡ erase snapshot_key k s.resources.snapshots
  unfolding delete_hostpath_snapshot refuse_group_member get_snapshot_by_id call
  delete_snapshot-unprotected k s named offered = ground (
    arith,
    deleted-snapshots k (record s { world = (env.remove_all (get_snapshot_path env k) s.world).1 }),
  )
