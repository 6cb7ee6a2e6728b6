-- ===== src/HostPath/Groups.antt =====
-- The methods on groups of snapshots (pkg/hostpath/groupcontrollerserver.go). Their capability check
-- accepts the one capability that they ask for.
pub mod Frames
pub mod Deletion
use csi.Prelude.{
  String, Bool, true, false, not, ◌&&◌, Option, none, some, List, [], ◌∷◌, ◌⊎◌, inl, inr, ◌==◌,
  ◌<>◌, if◌then◌else◌,
}
use csi.Prelude.Int.{ℤ}
use csi.Exec.{
  Exec, Error, Result, ok, status, already_exists, invalid_argument, pure, raise, fail_if, attempt,
  ◌>>=◌, ◌>>◌,
}
use csi.State.Types.{Timestamp, Volume, Snapshot, GroupSnapshot}
use csi.State.Table.{upsert}
use csi.State.EqualIds.{equal_ids}
use csi.State.Store.{
  Store, group_key, group_name, set_group_snapshots, get_volume_by_id, get_snapshot_by_id,
  get_group_snapshot_by_id, get_group_snapshot_by_name, update_snapshot, delete_snapshot,
  update_group_snapshot, delete_group_snapshot,
}
use csi.HostPath.Env.{Env, call, get_snapshot_path}
use csi.HostPath.Populate.{create_snapshot_from_volume}
use csi.HostPath.Snapshots.{SnapshotInfo, listed_info}

pub record GroupInfo : Type 0 where
  pub group_snapshot_id : String
  pub snapshots : List SnapshotInfo
  pub creation_time : Timestamp
  pub ready_to_use : Bool

-- What a repeated creation answers of a snapshot: the literal leaves out both IDs.
abbrev pub reused_info : Snapshot → SnapshotInfo
reused_info s = record (listed_info s) { snapshot_id = ""; source_volume_id = "" }

pub is_empty_list : List String → Bool
is_empty_list [] = true
is_empty_list (_ ∷ _) = false

pub all_ready : List SnapshotInfo → Bool
all_ready [] = true
all_ready (s ∷ ss) = s.ready_to_use && all_ready ss

module _ {W : Type 0} where
  -- `MatchesSourceVolumeIDs` and `MatchesSnapshotIDs`, on a copy that shares its slices with the state:
  -- what the comparison sorts is sorted in the state too, and is not written to the file.
  unfoldable pub matches_source_volume_ids : GroupSnapshot → List String → Exec (Store W) Bool
  matches_source_volume_ids g ids s =
      let c = equal_ids g.source_volume_ids ids in
      let sorted = record g { source_volume_ids = c.left } in
      (ok c.equal, set_group_snapshots (upsert group_name sorted s.resources.group_snapshots) s)

  unfoldable pub matches_snapshot_ids :
      GroupSnapshot → List String → Exec (Store W) (Bool × List String)
  matches_snapshot_ids g ids s =
      let c = equal_ids g.snapshot_ids ids in
      let sorted = record g { snapshot_ids = c.left } in
      (
        ok (c.equal, c.left),
        set_group_snapshots (upsert group_key sorted s.resources.group_snapshots) s,
      )

  -- The loop over the snapshots of a group, up to one that is not there.
  pub collect : (Snapshot → SnapshotInfo) → List String → Exec (Store W) (List SnapshotInfo)
  collect info [] = pure []
  collect info (id ∷ ids) = do
    s ← get_snapshot_by_id id
    rest ← collect info ids
    pure (info s ∷ rest)

module _ {W : Type 0} (env : Env W) where
  -- The loop over the source volumes: the new snapshots. The error of `UpdateSnapshot` is dropped, and
  -- what was taken before an error stays.
  take_snapshots : String → String → Timestamp → List String → Exec (Store W) (List SnapshotInfo)
  take_snapshots name group_id time [] = pure []
  take_snapshots name group_id time (volume_id ∷ ids) = do
    vol ← get_volume_by_id volume_id
    snapshot_id ← call env.new_uuid
    let file = get_snapshot_path env snapshot_id
    create_snapshot_from_volume env vol file
    let snapshot : Snapshot = record {
      name = name <> ("-" <> volume_id);
      id = snapshot_id;
      vol_id = volume_id;
      path = file;
      creation_time = time;
      size_bytes = vol.vol_size;
      ready_to_use = true;
      group_snapshot_id = group_id;
    }
    attempt (update_snapshot env.disk snapshot)
    rest ← take_snapshots name group_id time ids
    pure (listed_info snapshot ∷ rest)

  pub ids_of : List SnapshotInfo → List String
  ids_of [] = []
  ids_of (s ∷ ss) = s.snapshot_id ∷ ids_of ss

  group_or_reuse : String → List String → (Error ⊎ GroupSnapshot) → Exec (Store W) GroupInfo
  unfolding take_snapshots
  group_or_reuse name volume_ids (inr ex) = do
    same ← matches_source_volume_ids ex volume_ids
    fail_if (not same) (status already_exists)
    snapshots ← collect reused_info ex.snapshot_ids
    pure (record {
      group_snapshot_id = ex.id;
      snapshots = snapshots;
      creation_time = ex.creation_time;
      ready_to_use = all_ready snapshots;
    })
  group_or_reuse name volume_ids (inl _) = do
    group_id ← call env.new_uuid
    time ← call env.timestamp_now
    snapshots ← take_snapshots name group_id time volume_ids
    update_group_snapshot env.disk (record {
      name = name;
      id = group_id;
      snapshot_ids = ids_of snapshots;
      source_volume_ids = volume_ids;
      creation_time = time;
      ready_to_use = true;
    })
    pure (record {
      group_snapshot_id = group_id;
      snapshots = snapshots;
      creation_time = time;
      ready_to_use = true;
    })

  -- `CreateVolumeGroupSnapshot`, of a name and the source volumes
  unfoldable pub create_volume_group_snapshot : String → List String → Exec (Store W) GroupInfo
  unfolding group_or_reuse
  create_volume_group_snapshot name volume_ids = do
    fail_if (name == "") (status invalid_argument)
    fail_if (is_empty_list volume_ids) (status invalid_argument)
    found ← attempt (get_group_snapshot_by_name name)
    group_or_reuse name volume_ids found

  delete_snapshots : List String → Exec (Store W) (Unit {0})
  delete_snapshots [] = pure tt
  delete_snapshots (id ∷ ids) = do
    call (env.remove_all (get_snapshot_path env id))
    delete_snapshot env.disk id
    delete_snapshots ids

  delete_group : String → (Error ⊎ GroupSnapshot) → Exec (Store W) (Unit {0})
  unfolding delete_snapshots
  delete_group group_id (inl _) = pure tt
  delete_group group_id (inr g) = do
    delete_snapshots g.snapshot_ids
    delete_group_snapshot env.disk group_id

  -- `DeleteVolumeGroupSnapshot`. The lookup fails only with NotFound.
  unfoldable pub delete_volume_group_snapshot : String → Exec (Store W) (Unit {0})
  unfolding delete_group
  delete_volume_group_snapshot group_id = do
    fail_if (group_id == "") (status invalid_argument)
    found ← attempt (get_group_snapshot_by_id group_id)
    delete_group group_id found

  -- `GetVolumeGroupSnapshot`, of a group and the snapshots that it is to have
  unfoldable pub get_volume_group_snapshot : String → List String → Exec (Store W) GroupInfo
  unfolding collect
  get_volume_group_snapshot group_id snapshot_ids = do
    fail_if (group_id == "") (status invalid_argument)
    g ← get_group_snapshot_by_id group_id
    (same, sorted) ← matches_snapshot_ids g snapshot_ids
    fail_if (not same) (status invalid_argument)
    snapshots ← collect listed_info sorted
    pure (record {
      group_snapshot_id = group_id;
      snapshots = snapshots;
      creation_time = g.creation_time;
      ready_to_use = g.ready_to_use;
    })
