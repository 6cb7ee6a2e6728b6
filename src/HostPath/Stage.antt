-- ===== src/HostPath/Stage.antt =====
-- `NodeStageVolume`, `NodeUnstageVolume` and `NodeExpandVolume` of pkg/hostpath/nodeserver.go.
pub mod Refines
pub mod Retry
use csi.Prelude.{
  ◌*◌, String, Bool, true, false, not, ◌&&◌, ◌||◌, Option, none, some, List, [], ◌∷◌, ◌⊎◌, inl, inr,
  ◌==◌, ◌<>◌, if◌then◌else◌,
}
use csi.Prelude.Int.{ℤ, pos, ltb_ℤ}
use csi.Exec.{
  Exec, Error, OsError, exist, not_exist, os_error, formatted, status, failed_precondition,
  invalid_argument, internal, not_found, out_of_range, unimplemented, pure, raise, panic, gets,
  fail_if, fail_with, attempt, ◌>>=◌, ◌>>◌,
}
use csi.State.Strings
use csi.State.Types.{AccessType, mount_access, block_access, access_eq, Volume}
use csi.State.Store.{Store, get_volume_by_id, get_volume_by_name, update_volume}
use csi.Xfs.Units.{float64, convert_bytes_to_string}
use csi.HostPath.Env.{
  Dict, lookup_or, Env, FileMode, directory, device, other_file, call, get_volume_path,
}
use csi.HostPath.Requests.{
  VolumeCapability, AccessMode, single_node_single_writer, other_mode, is_block, is_mount,
  NodePublishRequest, NodeStageRequest, NodeExpandRequest,
}
use csi.HostPath.Core.{create_hostpath_volume, delete_hostpath_volume}
use csi.HostPath.Controller.{is_nil}

module _ {W : Type 0} (env : Env W) where
  -- `NodeStageVolume`
  unfoldable pub node_stage_volume : NodeStageRequest → Exec (Store W) (Unit {0})
  node_stage_volume req = do
    fail_if (req.volume_id == "") (status invalid_argument)
    fail_if (req.staging_target_path == "") (status invalid_argument)
    fail_if (is_nil req.volume_capability) (status invalid_argument)
    vol ← get_volume_by_id req.volume_id
    fail_if (env.config.enable_attach && not vol.attached) (status internal)
    if Strings.has req.staging_target_path vol.staged then pure tt else (do
      fail_if (not (Strings.is_empty vol.staged)) (status failed_precondition)
      update_volume env.disk
          (record vol { staged = Strings.add req.staging_target_path vol.staged }))

  -- `NodeUnstageVolume`, of a volume and a staging path
  unfoldable pub node_unstage_volume : String → String → Exec (Store W) (Unit {0})
  node_unstage_volume volume_id staging_target_path = do
    fail_if (volume_id == "") (status invalid_argument)
    fail_if (staging_target_path == "") (status invalid_argument)
    vol ← get_volume_by_id volume_id
    if not (Strings.has staging_target_path vol.staged) then pure tt else (do
      fail_if (not (Strings.is_empty vol.published)) (status internal)
      update_volume env.disk
          (record vol { staged = Strings.remove staging_target_path vol.staged }))

  -- `resizeVolume`
  unfoldable pub resize_volume : String → ℤ → Exec (Store W) (Unit {0})
  resize_volume vol_id bytes = do
    let text = convert_bytes_to_string (float64 bytes)
    e ← call (env.quotaer.update_quota (get_volume_path env vol_id) text)
    fail_with e formatted

  check_mode : Volume → (OsError ⊎ FileMode) → Exec (Store W) (Unit {0})
  check_mode vol (inl _) = raise (status invalid_argument)
  check_mode vol (inr directory) =
      fail_if (not (access_eq vol.vol_access_type mount_access)) (status invalid_argument)
  check_mode vol (inr device) =
      fail_if (not (access_eq vol.vol_access_type block_access)) (status invalid_argument)
  check_mode vol (inr other_file) = raise (status invalid_argument)

  node_expand_to : NodeExpandRequest → Volume → Option ℤ → Exec (Store W) (Unit {0})
  unfolding check_mode
  node_expand_to req vol none = raise (status invalid_argument)
  node_expand_to req vol (some capacity) = do
    fail_if (ltb_ℤ env.config.max_volume_expansion_size_node capacity) (status out_of_range)
    info ← call (env.stat req.volume_path)
    check_mode vol info
    resize_volume req.volume_id capacity

  -- `NodeExpandVolume`
  unfoldable pub node_expand_volume : NodeExpandRequest → Exec (Store W) (Unit {0})
  unfolding node_expand_to
  node_expand_volume req = do
    fail_if (not env.config.enable_volume_expansion) (status unimplemented)
    fail_if (req.volume_id == "") (status invalid_argument)
    vol ← get_volume_by_id req.volume_id
    fail_if (req.volume_path == "") (status invalid_argument)
    node_expand_to req vol req.capacity_range
