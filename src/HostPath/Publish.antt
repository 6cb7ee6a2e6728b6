-- ===== src/HostPath/Publish.antt =====
-- `NodePublishVolume` and `NodeUnpublishVolume` of pkg/hostpath/nodeserver.go.
pub mod Refines
pub mod Retry
use csi.Prelude.{
  ◌*◌, String, Bool, true, false, not, ◌&&◌, ◌||◌, Option, none, some, List, [], ◌∷◌, ◌⊎◌, inl, inr,
  ◌==◌, ◌<>◌, if◌then◌else◌,
}
use csi.Prelude.Int.{ℤ, pos, ltb_ℤ}
use csi.Exec.{
  Exec, Error, OsError, exist, not_exist, os_error, formatted, status, failed_precondition,
  invalid_argument, internal, not_found, out_of_range, unimplemented, pure, raise, panic, gets,
  fail_if, fail_with, attempt, ◌>>=◌, ◌>>◌,
}
use csi.State.Strings
use csi.State.Types.{AccessType, mount_access, block_access, access_eq, Volume}
use csi.State.Store.{Store, get_volume_by_id, get_volume_by_name, update_volume}
use csi.Xfs.Units.{float64, convert_bytes_to_string}
use csi.HostPath.Env.{
  Dict, lookup_or, Env, FileMode, directory, device, other_file, call, get_volume_path,
}
use csi.HostPath.Requests.{
  VolumeCapability, AccessMode, single_node_single_writer, other_mode, is_block, is_mount,
  NodePublishRequest, NodeStageRequest, NodeExpandRequest,
}
use csi.HostPath.Core.{create_hostpath_volume, delete_hostpath_volume}
use csi.HostPath.Controller.{is_nil}

-- `hasSingleNodeSingleWriterAccessMode`
unfoldable pub has_single_writer_access_mode : VolumeCapability → Bool
has_single_writer_access_mode c = elim c.access_mode [
  | some single_node_single_writer ↦ true
  | _ ↦ false
]

-- `isMountedElsewhere`
unfoldable pub is_mounted_elsewhere : String → List String → Bool
is_mounted_elsewhere target [] = false
is_mounted_elsewhere target (p ∷ ps) = if p == target then is_mounted_elsewhere target ps else true

module _ {W : Type 0} where
  file_made : Option OsError → Exec (Store W) (Unit {0})
  file_made none = pure tt
  file_made (some exist) = pure tt
  file_made (some e) = raise (os_error e)

module _ {W : Type 0} (env : Env W) where
  -- Whether the request asks for an ephemeral volume.
  unfoldable pub is_ephemeral : NodePublishRequest → Bool
  is_ephemeral req =
      let flag = lookup_or "" "csi.storage.k8s.io/ephemeral" req.volume_context in
      flag == "true" || (flag == "" && env.config.ephemeral)

  -- `err != nil && !os.IsExist(err)`; past an error that is an `IsExist` the source reads the path of
  -- a nil volume.
  created : (Error ⊎ Volume) → Exec (Store W) (Unit {0})
  created (inr _) = pure tt
  created (inl (os_error exist)) = panic
  created (inl e) = raise e

  create_ephemeral : NodePublishRequest → (Error ⊎ Volume) → Exec (Store W) (Unit {0})
  unfolding created
  create_ephemeral req (inr _) = pure tt
  create_ephemeral req (inl _) = do
    let kind = lookup_or "" "kind" req.volume_context
    result ← attempt (
        create_hostpath_volume env req.volume_id ("ephemeral-" <> req.volume_id)
          (pos (100 * 1024 * 1024)) mount_access true kind)
    created result

  unfoldable pub ensure_ephemeral : NodePublishRequest → Exec (Store W) (Unit {0})
  unfolding create_ephemeral
  ensure_ephemeral req =
      if is_ephemeral req
      then (do
        found ← attempt (get_volume_by_name ("ephemeral-" <> req.volume_id))
        create_ephemeral req found)
      else pure tt

  -- `makeFile`
  unfoldable pub make_file : String → Exec (Store W) (Unit {0})
  unfolding file_made
  make_file path = do e ← call (env.create_file path); file_made e

  format_error : (Error ⊎ Unit {0}) → Exec (Store W) (Unit {0})
  format_error (inr _) = pure tt
  format_error (inl _) = raise formatted

  -- A target path that is not there is created; any other error of `os.Lstat` is passed on.
  make_target : String → Option OsError → Exec (Store W) (Unit {0})
  unfolding format_error
  make_target path none = pure tt
  make_target path (some not_exist) = do made ← attempt (make_file path); format_error made
  make_target path (some _) = raise formatted

  -- `mount.IsNotMountPoint` for a block volume: a path that is not there is no mount point.
  block_not_mount : (OsError ⊎ Bool) → Exec (Store W) Bool
  block_not_mount (inl not_exist) = pure true
  block_not_mount (inl _) = raise formatted
  block_not_mount (inr b) = pure b

  loop_device : (OsError ⊎ String) → Exec (Store W) String
  loop_device (inl _) = raise formatted
  loop_device (inr d) = pure d

  -- The branch for a block volume. The answer is false if the target was mounted before, where the
  -- source returns at once.
  publish_block : NodePublishRequest → Volume → Exec (Store W) Bool
  unfolding make_target block_not_mount loop_device
  publish_block req vol = do
    fail_if (not (access_eq vol.vol_access_type block_access)) (status invalid_argument)
    found ← call (env.get_loop_device vol.vol_path)
    dev ← loop_device found
    e ← call (env.lstat req.target_path)
    make_target req.target_path e
    mounted ← call (env.is_not_mount_point req.target_path)
    not_mount ← block_not_mount mounted
    if not not_mount then pure false else (do
      e ← call (env.mount dev req.target_path ("bind" ∷ []))
      fail_with e formatted
      pure true)

  -- The same for a mount volume, where a target directory that is not there is made.
  dir_not_mount : String → (OsError ⊎ Bool) → Exec (Store W) Bool
  dir_not_mount path (inl not_exist) = do
    e ← call (env.mkdir path)
    fail_with e formatted
    pure true
  dir_not_mount path (inl _) = raise formatted
  dir_not_mount path (inr b) = pure b

  -- When the mount fails, the directory of an ephemeral volume is removed.
  mount_done : Volume → String → Option OsError → Exec (Store W) Bool
  mount_done vol path none = pure true
  mount_done vol path (some _) =
      if vol.ephemeral then (do call (env.remove_all path); raise formatted) else raise formatted

  -- The branch for a mount volume.
  publish_mount : NodePublishRequest → Volume → Exec (Store W) Bool
  unfolding dir_not_mount mount_done
  publish_mount req vol = do
    fail_if (not (access_eq vol.vol_access_type mount_access)) (status invalid_argument)
    mounted ← call (env.is_not_mount_point req.target_path)
    not_mount ← dir_not_mount req.target_path mounted
    if not not_mount then pure false else (do
      let path = get_volume_path env req.volume_id
      let options = if req.readonly then "bind" ∷ "ro" ∷ [] else "bind" ∷ []
      e ← call (env.mount path req.target_path options)
      mount_done vol path e)

  bind_mount : NodePublishRequest → VolumeCapability → Volume → Exec (Store W) Bool
  unfolding publish_block publish_mount
  bind_mount req cap vol =
      if is_block cap
      then publish_block req vol
      else if is_mount cap
      then publish_mount req vol
      else pure true

  -- The checks of `NodePublishVolume` that a volume of a pod, not an ephemeral one, has to pass.
  check_staged : NodePublishRequest → Volume → Exec (Store W) (Unit {0})
  check_staged req vol = if is_ephemeral req then pure tt else (do
    fail_if (Strings.is_empty vol.staged) (status failed_precondition)
    fail_if (not (Strings.has req.staging_target_path vol.staged)) (status invalid_argument))

  or_status_not_found : (Error ⊎ Volume) → Exec (Store W) Volume
  or_status_not_found (inl _) = raise (status not_found)
  or_status_not_found (inr vol) = pure vol

  record_published : NodePublishRequest → Volume → Bool → Exec (Store W) (Unit {0})
  record_published req vol false = pure tt
  record_published req vol true = update_volume env.disk (record vol {
    node_id = env.config.node_id;
    published = Strings.add req.target_path vol.published;
  })

  publish_with : NodePublishRequest → VolumeCapability → Exec (Store W) (Unit {0})
  unfolding bind_mount check_staged or_status_not_found record_published
  publish_with req cap = do
    fail_if (req.volume_id == "") (status invalid_argument)
    fail_if (req.target_path == "") (status invalid_argument)
    fail_if (is_block cap && is_mount cap) (status invalid_argument)
    ensure_ephemeral req
    found ← attempt (get_volume_by_id req.volume_id)
    vol ← or_status_not_found found
    fail_if
        (has_single_writer_access_mode cap && is_mounted_elsewhere req.target_path vol.published)
        (status failed_precondition)
    check_staged req vol
    fresh ← bind_mount req cap vol
    record_published req vol fresh

  -- `NodePublishVolume`
  unfoldable pub node_publish_volume : NodePublishRequest → Exec (Store W) (Unit {0})
  unfolding publish_with ensure_ephemeral
  node_publish_volume req = elim req.volume_capability [
    | none ↦ raise (status invalid_argument)
    | some cap ↦ publish_with req cap
  ]

  -- Unmount only what is a mount point.
  pub unmount_if_mounted : String → (OsError ⊎ Bool) → Exec (Store W) (Unit {0})
  unmount_if_mounted path (inl not_exist) = pure tt
  unmount_if_mounted path (inl _) = raise formatted
  unmount_if_mounted path (inr true) = pure tt
  unmount_if_mounted path (inr false) = do e ← call (env.unmount path); fail_with e formatted

  unless_not_exist_error : (Error ⊎ Unit {0}) → Exec (Store W) (Unit {0})
  unless_not_exist_error (inr _) = pure tt
  unless_not_exist_error (inl (os_error not_exist)) = pure tt
  unless_not_exist_error (inl _) = raise formatted

  -- `NodeUnpublishVolume`, of a volume and a target path
  unfoldable pub node_unpublish_volume : String → String → Exec (Store W) (Unit {0})
  unfolding unmount_if_mounted unless_not_exist_error
  node_unpublish_volume volume_id target_path = do
    fail_if (volume_id == "") (status invalid_argument)
    fail_if (target_path == "") (status invalid_argument)
    vol ← get_volume_by_id volume_id
    if not (Strings.has target_path vol.published) then pure tt else (do
      mounted ← call (env.is_not_mount_point target_path)
      unmount_if_mounted target_path mounted
      e ← call (env.remove_all target_path)
      fail_with e formatted
      if vol.ephemeral
          then (do
            deleted ← attempt (delete_hostpath_volume env volume_id)
            unless_not_exist_error deleted)
          else update_volume env.disk
              (record vol { published = Strings.remove target_path vol.published }))
