-- ===== src/HostPath/Snapshots.antt =====
-- The methods on snapshots of pkg/hostpath/controllerserver.go.
pub mod Frames
pub mod Deletion
use csi.Prelude.{
  ℕ, zero, suc, String, Bool, true, false, not, ◌&&◌, ◌||◌, Option, none, some, List, [], ◌∷◌, ◌⊎◌,
  inl, inr, ◌==◌, map, length, get_elem?, if◌then◌else◌,
}
use csi.Prelude.Int.{ℤ, pos, negsuc, ◌+ℤ◌, ◌-ℤ◌, ltb_ℤ, leb_ℤ}
use csi.Prelude.Sort.{sort}
use csi.Prelude.Decimal.{decimal_ℤ}
use csi.Prelude.Parse.{parse_uint32, int32}
use csi.Exec.{
  Exec, Error, Result, ok, err, panicked, status, aborted, already_exists, invalid_argument, pure,
  raise, gets, lift, fail_if, attempt, ◌>>=◌, ◌>>◌,
}
use csi.State.Types.{Timestamp, Volume, Snapshot}
use csi.State.Store.{
  Store, get_volume_by_id, get_snapshot_by_id, get_snapshot_by_name, get_snapshots, update_snapshot,
  delete_snapshot, snapshot_key,
}
use csi.HostPath.Env.{Env, call, get_snapshot_path}
use csi.HostPath.Capabilities.{create_delete_snapshot, validate_controller_service_request}
use csi.HostPath.Populate.{create_snapshot_from_volume}

-- csi.Snapshot, with empty strings for the fields that a response leaves out
pub record SnapshotInfo : Type 0 where
  pub snapshot_id : String
  pub source_volume_id : String
  pub creation_time : Timestamp
  pub size_bytes : ℤ
  pub ready_to_use : Bool
  pub group_snapshot_id : String

pub record ListSnapshotsRequest : Type 0 where
  pub snapshot_id : String
  pub source_volume_id : String
  pub starting_token : String
  pub max_entries : ℤ

pub record ListSnapshotsResponse : Type 0 where
  pub entries : List SnapshotInfo
  pub next_token : String

-- What `CreateSnapshot` answers.
abbrev pub created_info : Snapshot → SnapshotInfo
created_info s = record {
  snapshot_id = s.id;
  source_volume_id = s.vol_id;
  creation_time = s.creation_time;
  size_bytes = s.size_bytes;
  ready_to_use = s.ready_to_use;
  group_snapshot_id = "";
}

-- What `ListSnapshots` lists.
abbrev pub listed_info : Snapshot → SnapshotInfo
listed_info s = record (created_info s) { group_snapshot_id = s.group_snapshot_id }

module _ {W : Type 0} (env : Env W) where
  -- A new snapshot of a volume.
  take_snapshot : String → String → Volume → Exec (Store W) SnapshotInfo
  take_snapshot name source_volume_id vol = do
    snapshot_id ← call env.new_uuid
    creation_time ← call env.timestamp_now
    let file = get_snapshot_path env snapshot_id
    create_snapshot_from_volume env vol file
    let snapshot : Snapshot = record {
      name = name;
      id = snapshot_id;
      vol_id = source_volume_id;
      path = file;
      creation_time = creation_time;
      size_bytes = vol.vol_size;
      ready_to_use = true;
      group_snapshot_id = "";
    }
    update_snapshot env.disk snapshot
    pure (created_info snapshot)

  snapshot_or_reuse : String → String → (Error ⊎ Snapshot) → Exec (Store W) SnapshotInfo
  unfolding take_snapshot
  snapshot_or_reuse name source_volume_id (inr ex) = do
    fail_if (not (ex.vol_id == source_volume_id)) (status already_exists)
    pure (created_info ex)
  snapshot_or_reuse name source_volume_id (inl _) = do
    vol ← get_volume_by_id source_volume_id
    take_snapshot name source_volume_id vol

  -- `CreateSnapshot`, of a name and a source volume
  unfoldable pub create_snapshot : String → String → Exec (Store W) SnapshotInfo
  unfolding snapshot_or_reuse
  create_snapshot name source_volume_id = do
    lift (validate_controller_service_request env.config create_delete_snapshot)
    fail_if (name == "") (status invalid_argument)
    fail_if (source_volume_id == "") (status invalid_argument)
    found ← attempt (get_snapshot_by_name name)
    snapshot_or_reuse name source_volume_id found

  -- The test for a group is made where the lookup failed, and there the snapshot is the zero value.
  refuse_group_member : (Error ⊎ Snapshot) → Exec (Store W) (Unit {0})
  refuse_group_member (inl _) =
      let no_group : String = "" in fail_if (not (no_group == "")) (status invalid_argument)
  refuse_group_member (inr _) = pure tt

  -- `DeleteSnapshot`
  unfoldable pub delete_hostpath_snapshot : String → Exec (Store W) (Unit {0})
  unfolding refuse_group_member
  delete_hostpath_snapshot snapshot_id = do
    fail_if (snapshot_id == "") (status invalid_argument)
    lift (validate_controller_service_request env.config create_delete_snapshot)
    found ← attempt (get_snapshot_by_id snapshot_id)
    refuse_group_member found
    call (env.remove_all (get_snapshot_path env snapshot_id))
    delete_snapshot env.disk snapshot_id
