-- ===== src/HostPath/Core/Frames.antt =====
-- What the helpers of hostpath.go do to the volumes of the state.
use csi.Prelude.{String, ◌≡◌, refl, Bool, Option, none, some, List, ◌⊎◌, inl, inr}
use csi.Prelude.Int.{ℤ, ltb_ℤ, le_of_not_ltb}
use csi.Exec.{OsError, not_exist, Error, status, not_found}
use csi.State.Types.{AccessType, mount_access, block_access, other_access, Volume}
use csi.State.Table.{find}
use csi.State.Store.{volume_name}
use csi.HostPath.Env.{Env, FileMode}
use csi.HostPath.Core.{
  check_capacity, make_file_for_block, after_attach, or_os_error, make_storage, new_volume,
  create_hostpath_volume, detach, unless_not_exist, delete_found, delete_hostpath_volume,
}
use csi.HostPath.Leads.{
  Leads, Frames, Frames-call, Leads-Frames, Leads-frame, Leads-fail_if, Leads-bind,
  Leads-attempt_id, Leads-update_volume, Leads-delete_volume, frames_rules,
}
use csi.HostPath.Lifecycle.{create, delete, Reach, here, one}

module _ {W : Type 0} (env : Env W) where
  pub Frames-check_capacity : (cap : ℤ) (kind : String) → Frames (check_capacity env cap kind)
  unfolding check_capacity
  Frames-check_capacity cap kind = search frames_rules depth 12

  Frames-make_file_for_block :
      (path : String) (cap : ℤ) (found : OsError ⊎ FileMode)
      → Frames (make_file_for_block env path cap found)
  unfolding make_file_for_block
  Frames-make_file_for_block path cap (inr _) = search frames_rules
  Frames-make_file_for_block path cap (inl not_exist) = search frames_rules
  Frames-make_file_for_block path cap (inl _) = search frames_rules

  Frames-after_attach : (path : String) (o : Option OsError) → Frames (after_attach env path o)
  unfolding after_attach
  Frames-after_attach path none = search frames_rules
  Frames-after_attach path (some _) = search frames_rules

  Frames-or_os_error : (o : Option OsError) → Frames (or_os_error env o)
  unfolding or_os_error
  Frames-or_os_error none = search frames_rules
  Frames-or_os_error (some _) = search frames_rules

  pub Frames-make_storage :
      (path : String) (cap : ℤ) (access_type : AccessType)
      → Frames (make_storage env path cap access_type)
  unfolding make_storage
  Frames-make_storage path cap mount_access = search (frames_rules, Frames-or_os_error)
  Frames-make_storage path cap block_access =
      search (frames_rules, Frames-make_file_for_block, Frames-after_attach) depth 10
  Frames-make_storage path cap (other_access _) = search frames_rules

  pub Frames-detach :
      (access_type : AccessType) (path : String) → Frames (detach env access_type path)
  unfolding detach
  Frames-detach block_access path = search frames_rules
  Frames-detach mount_access path = search frames_rules
  Frames-detach (other_access _) path = search frames_rules

  pub Frames-unless_not_exist : (o : Option OsError) → Frames (unless_not_exist env o)
  unfolding unless_not_exist
  Frames-unless_not_exist none = search frames_rules
  Frames-unless_not_exist (some not_exist) = search frames_rules
  Frames-unless_not_exist (some _) = search frames_rules

  -- A volume is added under the given name, or nothing happens.
  pub create-Reach :
      {eph : Bool} (vs : List Volume) (vol_id name : String) (size : ℤ) (access_type : AccessType)
      (ephemeral : Bool) (kind : String)
      → find volume_name name vs ≡ none
      → Leads vs
          (Reach env.config eph vs)
          (create_hostpath_volume env vol_id name size access_type ephemeral kind)
  unfolding create_hostpath_volume
  create-Reach vs vol_id name size access_type ephemeral kind fresh =
      Leads-fail_if _ (ltb_ℤ env.config.max_volume_size size) _ _ here λ fits.
        Leads-frame _ _ _ (Frames-check_capacity size kind) here λ picked.
          Leads-frame _ _ _ (Frames-make_storage _ size access_type) here λ _.
            Leads-bind (Reach env.config _ vs) _ _ _
              (Leads-update_volume env.disk _ _ (
                one (
                  create (new_volume env vol_id name size access_type ephemeral picked) refl refl
                    refl (le_of_not_ltb env.config.max_volume_size size fits) fresh refl)))
              (λ us r. r) λ _ us r. Leads-Frames _ _ (search frames_rules) r

  delete_found-Reach :
      {eph : Bool} (vs : List Volume) (vol_id : String) (found : Error ⊎ Volume)
      → Leads vs (Reach env.config eph vs) (delete_found env vol_id found)
  unfolding delete_found
  delete_found-Reach vs vol_id (inl _) = Leads-Frames _ _ (search frames_rules) here
  delete_found-Reach vs vol_id (inr vol) =
      Leads-frame _ _ _ (Frames-detach vol.vol_access_type _) here λ _.
        Leads-frame _ _ _ (Frames-call _) here λ e.
          Leads-frame _ _ _ (Frames-unless_not_exist e) here λ _.
            Leads-bind (Reach env.config _ vs) _ _ _
              (Leads-delete_volume env.disk _ vol_id (one (delete vol_id refl))) (λ us r. r)
              λ _ us r. Leads-Frames _ _ (search frames_rules) r

  -- At most the volume under the ID goes.
  pub delete-Reach :
      {eph : Bool} (vs : List Volume) (vol_id : String)
      → Leads vs (Reach env.config eph vs) (delete_hostpath_volume env vol_id)
  unfolding delete_hostpath_volume
  delete-Reach vs vol_id =
      Leads-attempt_id _ vol_id _ (λ _. delete_found-Reach vs vol_id (inl (status not_found)))
        (λ v _. delete_found-Reach vs vol_id (inr v))
