-- ===== src/HostPath/Health.antt =====
-- The health checks of pkg/hostpath/healthcheck.go.
pub mod Sound
pub mod Quiet
use csi.Prelude.{
  String, Bool, true, false, not, Option, none, some, List, [], ◌∷◌, ◌⊎◌, inl, inr, ◌==◌,
  if◌then◌else◌,
}
use csi.Prelude.Int.{ℤ, pos, ltb_ℤ}
use csi.Prelude.Cut.{contains}
use csi.Exec.{
  Exec, Error, OsError, not_exist, os_error, formatted, pure, raise, fail_if, attempt, ◌>>=◌, ◌>>◌,
}
use csi.State.Types.{Volume}
use csi.State.Store.{Store, get_volume_by_id}
use csi.HostPath.Env.{
  Env, FileMode, FsInfo, MountPointInfo, mount_point, MountPoints, no_mount_points, more,
  ContainerFileSystem, call, get_volume_path,
}

-- The text of a volume condition: the four texts of the checks, and the text of an error.
pub data Message : Type 0 where
  no_text source_missing too_small no_space not_mounted : Message
  error_text : Error → Message

unfoldable pub target_of : MountPointInfo → String
target_of (mount_point target source fs_type options children) = target

unfoldable pub source_of : MountPointInfo → String
source_of (mount_point target source fs_type options children) = source

unfoldable pub children_of : MountPointInfo → MountPoints
children_of (mount_point target source fs_type options children) = children

-- The loop that looks for the mount points of the pods; without one there are no children.
unfoldable pub pod_mounts : MountPoints → MountPoints
unfolding target_of children_of
pod_mounts no_mount_points = no_mount_points
pod_mounts (more m ms) =
    if target_of m == "/var/lib/kubelet/pods" then children_of m else pod_mounts ms

-- The end of `parseMountInfo`.
first_children : Option (List ContainerFileSystem) → Error ⊎ MountPoints
first_children none = inl formatted
first_children (some []) = inl formatted
first_children (some (fs ∷ _)) = inr fs.children

module _ {W : Type 0} (env : Env W) where
  -- What `os.Stat` of a path that has to exist says.
  found : (OsError ⊎ FileMode) → Exec (Store W) Bool
  found (inr _) = pure true
  found (inl not_exist) = pure false
  found (inl e) = raise (os_error e)

  -- `checkPathExist`
  unfoldable pub check_path_exist : String → Exec (Store W) Bool
  unfolding found
  check_path_exist path = do info ← call (env.stat path); found info

  -- The loop over the mount points of the pods, up to the first one whose source has the path in it.
  unfoldable pub check_mounts : String → MountPoints → Exec (Store W) Bool
  unfolding source_of target_of found
  check_mounts path no_mount_points = pure false
  check_mounts path (more m ms) =
      if contains (source_of m) path
      then (call (env.stat (target_of m)) >>= found)
      else check_mounts path ms

  or_formatted : {A : Type 0} → (OsError ⊎ A) → Exec (Store W) A
  or_formatted (inl _) = raise formatted
  or_formatted (inr a) = pure a

  or_os_error : {A : Type 0} → (OsError ⊎ A) → Exec (Store W) A
  or_os_error (inl e) = raise (os_error e)
  or_os_error (inr a) = pure a

  parsed : (Error ⊎ MountPoints) → Exec (Store W) MountPoints
  parsed (inl _) = raise formatted
  parsed (inr ms) = pure ms

  -- `checkMountPointExist`
  unfoldable pub check_mount_point_exist : String → Exec (Store W) Bool
  unfolding or_formatted or_os_error parsed first_children check_mounts pod_mounts
  check_mount_point_exist path = do
    looked ← call (env.probes.look_path "findmnt")
    findmnt ← or_formatted looked
    out ← call (env.probes.combined_output (findmnt ∷ "--json" ∷ []))
    text ← or_os_error out
    fail_if (text == "") formatted
    mounts ← parsed (first_children (env.probes.unmarshal_file_systems text))
    check_mounts path (pod_mounts mounts)

  -- `checkPVCapacityValid`
  unfoldable pub check_pv_capacity_valid : String → Exec (Store W) Bool
  unfolding or_formatted
  check_pv_capacity_valid vol_id = do
    out ← call (env.probes.fs_info (get_volume_path env vol_id))
    info ← or_formatted out
    volume ← get_volume_by_id vol_id
    pure (not (ltb_ℤ info.capacity volume.vol_size))

  -- `checkPVUsage`
  unfoldable pub check_pv_usage : String → Exec (Store W) Bool
  unfolding or_os_error
  check_pv_usage vol_id = do
    out ← call (env.probes.fs_info (get_volume_path env vol_id))
    info ← or_os_error out
    pure (ltb_ℤ (pos 0) info.available)

  -- What the two health checks do with the result of a check: they end with its error, or with a text if it
  -- is false.
  after_check :
      Message → Exec (Store W) (Bool × Message) → (Error ⊎ Bool) → Exec (Store W) (Bool × Message)
  after_check text next (inl e) = pure (false, error_text e)
  after_check text next (inr false) = pure (false, text)
  after_check text next (inr true) = next

  check :
      Exec (Store W) Bool
      → Message
      → Exec (Store W) (Bool × Message)
      → Exec (Store W) (Bool × Message)
  unfolding after_check
  check m text next = attempt m >>= after_check text next

  -- `doHealthCheckInControllerSide`
  unfoldable pub do_health_check_in_controller_side : String → Exec (Store W) (Bool × Message)
  unfolding check check_path_exist check_pv_capacity_valid check_pv_usage
  do_health_check_in_controller_side vol_id =
      check (check_path_exist (get_volume_path env vol_id)) source_missing (
        check (check_pv_capacity_valid vol_id) too_small
          (check (check_pv_usage vol_id) no_space (pure (true, no_text))))

  -- `doHealthCheckInNodeSide`
  unfoldable pub do_health_check_in_node_side : String → Exec (Store W) (Bool × Message)
  unfolding check check_mount_point_exist
  do_health_check_in_node_side vol_id =
      check (check_mount_point_exist (get_volume_path env vol_id)) not_mounted
        (pure (true, no_text))
