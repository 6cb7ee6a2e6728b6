-- ===== src/HostPath/Publish/Refines.antt =====
-- `NodePublishVolume` and `NodeUnpublishVolume` take only steps of the life cycle.
use csi.Prelude.{
  String, ◌≡◌, refl, Bool, true, false, not, ◌&&◌, ◌<>◌, Option, none, some, List, ◌⊎◌, inl, inr,
  arith, ◌==◌, Option-cases, if◌then◌else◌,
}
use csi.Prelude.Int.{pos}
use csi.Exec.{
  Error, OsError, exist, not_exist, os_error, formatted, status, not_found, failed_precondition,
  invalid_argument, Exec, pure, fail_if, ◌>>◌,
}
use csi.State.Strings
use csi.State.Types.{Volume, mount_access}
use csi.State.Table.{find}
use csi.State.Store.{Store, volume_key, volume_name}
use csi.HostPath.Env.{Env}
use csi.HostPath.Requests.{VolumeCapability, is_block, is_mount, NodePublishRequest}
use csi.HostPath.Core.Frames.{
  create-Reach as create_hostpath-Reach, delete-Reach as delete_hostpath-Reach,
}
use csi.HostPath.Publish.{
  has_single_writer_access_mode, is_mounted_elsewhere, file_made, is_ephemeral, created,
  create_ephemeral, ensure_ephemeral, make_file, format_error, make_target, block_not_mount,
  loop_device, publish_block, dir_not_mount, mount_done, publish_mount, bind_mount, check_staged,
  or_status_not_found, record_published, publish_with, node_publish_volume, unmount_if_mounted,
  unless_not_exist_error, node_unpublish_volume,
}
use csi.HostPath.Leads.{
  Leads, Frames, Leads-Frames, Leads-frame, Leads-fail_if, Leads-if, Leads-attempt,
  Leads-attempt_id, Leads-attempt_name, Leads-get_volume_by_id, Leads-update_volume, Frames-call,
  Frames-pure, Frames-raise, Frames-panic, Frames-fail_with, frames_rules,
}
use csi.HostPath.Lifecycle.{publish, unpublish, Reach, here, one}
use csi.HostPath.Lifecycle.Rules.{Reach-bind}

module _ {W : Type 0} (env : Env W) where
  Frames-created : (r : Error ⊎ Volume) → Frames (created env r)
  unfolding created
  Frames-created (inr _) = search frames_rules
  Frames-created (inl (os_error exist)) = Frames-panic
  Frames-created (inl _) = search frames_rules

  create_ephemeral-Reach :
      {eph : Bool} (vs : List Volume) (req : NodePublishRequest) (e : Error)
      → find volume_name ("ephemeral-" <> req.volume_id) vs ≡ none
      → Leads vs (Reach env.config eph vs) (create_ephemeral env req (inl e))
  unfolding create_ephemeral
  create_ephemeral-Reach vs req e fresh =
      Reach-bind _ _
        (Leads-attempt _ _
          (create_hostpath-Reach env vs req.volume_id _ (pos 104857600) mount_access true _ fresh))
        (λ r us. Leads-Frames _ _ (Frames-created r) here)

  Frames-reuse_ephemeral :
      (req : NodePublishRequest) (v : Volume) → Frames (create_ephemeral env req (inr v))
  unfolding create_ephemeral
  Frames-reuse_ephemeral req v = search frames_rules

  ensure_ephemeral-Reach :
      {eph : Bool} (vs : List Volume) (req : NodePublishRequest)
      → Leads vs (Reach env.config eph vs) (ensure_ephemeral env req)
  unfolding ensure_ephemeral
  ensure_ephemeral-Reach vs req =
      Leads-if _ (is_ephemeral env req) _ _
        (λ _.
          Leads-attempt_name _ ("ephemeral-" <> req.volume_id) _
            (λ fresh. create_ephemeral-Reach vs req (status not_found) fresh)
            (λ v _. Leads-Frames _ _ (Frames-reuse_ephemeral req v) here))
        (λ _. Leads-Frames _ _ (Frames-pure tt) here)

  Frames-file_made : (o : Option OsError) → Frames (file_made {W = W} o)
  unfolding file_made
  Frames-file_made none = search frames_rules
  Frames-file_made (some exist) = search frames_rules
  Frames-file_made (some _) = search frames_rules

  Frames-format_error : (r : Error ⊎ Unit {0}) → Frames (format_error env r)
  unfolding format_error
  Frames-format_error (inl _) = search frames_rules
  Frames-format_error (inr _) = search frames_rules

  Frames-make_target : (path : String) (o : Option OsError) → Frames (make_target env path o)
  unfolding make_target make_file
  Frames-make_target path none = search frames_rules
  Frames-make_target path (some not_exist) =
      search (frames_rules, Frames-format_error, Frames-file_made) depth 8
  Frames-make_target path (some _) = search frames_rules

  Frames-block_not_mount : (r : OsError ⊎ Bool) → Frames (block_not_mount env r)
  unfolding block_not_mount
  Frames-block_not_mount (inl not_exist) = search frames_rules
  Frames-block_not_mount (inl _) = search frames_rules
  Frames-block_not_mount (inr _) = search frames_rules

  Frames-loop_device : (r : OsError ⊎ String) → Frames (loop_device env r)
  unfolding loop_device
  Frames-loop_device (inl _) = search frames_rules
  Frames-loop_device (inr _) = search frames_rules

  Frames-publish_block : (req : NodePublishRequest) (v : Volume) → Frames (publish_block env req v)
  unfolding publish_block
  Frames-publish_block req v =
      search (frames_rules, Frames-make_target, Frames-block_not_mount, Frames-loop_device) depth 24

  Frames-dir_not_mount : (path : String) (r : OsError ⊎ Bool) → Frames (dir_not_mount env path r)
  unfolding dir_not_mount
  Frames-dir_not_mount path (inl not_exist) = search frames_rules depth 8
  Frames-dir_not_mount path (inl _) = search frames_rules
  Frames-dir_not_mount path (inr _) = search frames_rules

  Frames-mount_done :
      (v : Volume) (path : String) (o : Option OsError) → Frames (mount_done env v path o)
  unfolding mount_done
  Frames-mount_done v path none = search frames_rules
  Frames-mount_done v path (some _) = search frames_rules

  Frames-publish_mount : (req : NodePublishRequest) (v : Volume) → Frames (publish_mount env req v)
  unfolding publish_mount
  Frames-publish_mount req v =
      search (frames_rules, Frames-dir_not_mount, Frames-mount_done) depth 20

  Frames-bind_mount :
      (req : NodePublishRequest) (c : VolumeCapability) (v : Volume)
      → Frames (bind_mount env req c v)
  unfolding bind_mount
  Frames-bind_mount req c v = search (frames_rules, Frames-publish_block, Frames-publish_mount)

  -- Past the checks for a volume that is not ephemeral.
  Leads-check_staged :
      {A : Type 0} {vs : List Volume} (Q : List Volume → Type 0) (req : NodePublishRequest)
      (v : Volume) (n : Exec (Store W) A)
      → Q vs
      → ((is_ephemeral env req ≡ false → Strings.is_empty v.staged ≡ false) → Leads vs Q n)
      → Leads vs Q (check_staged env req v >> n)
  unfolding check_staged
  Leads-check_staged {A} {vs} Q req v n q h =
      split (is_ephemeral env req) (Strings.is_empty v.staged)
        (not (Strings.has req.staging_target_path v.staged)) h
    where
      split :
          (b c d : Bool)
          → ((b ≡ false → c ≡ false) → Leads vs Q n)
          → Leads vs Q (
              (if b
                then pure tt
                else (fail_if c (status failed_precondition)
                    >> fail_if d (status invalid_argument)))
              >> n)
      split true c d k = k (λ e. cc)
      split false true d k = record { at = λ s e. rw e q }
      split false false true k = record { at = λ s e. rw e q }
      split false false false k = k (λ _. refl)

  record_published-Reach :
      (vs : List Volume) (req : NodePublishRequest) (v : Volume) (fresh : Bool)
      → find volume_key req.volume_id vs ≡ some v
      → (is_ephemeral env req ≡ false → Strings.is_empty v.staged ≡ false)
      → Leads vs (Reach env.config (is_ephemeral env req) vs) (record_published env req v fresh)
  unfolding record_published
  record_published-Reach vs req v false found staged = Leads-Frames _ _ (search frames_rules) here
  record_published-Reach vs req v true found staged =
      Leads-update_volume env.disk _ _
        (one (publish req.volume_id v req.target_path found staged refl))

  publish_with-Reach :
      (vs : List Volume) (req : NodePublishRequest) (c : VolumeCapability)
      → Leads vs (Reach env.config (is_ephemeral env req) vs) (publish_with env req c)
  unfolding publish_with or_status_not_found
  publish_with-Reach vs req c = Leads-fail_if _ (req.volume_id == "") _ _ here λ _.
      Leads-fail_if _ (req.target_path == "") _ _ here λ _.
        Leads-fail_if _ (is_block c && is_mount c) _ _ here λ _.
          Reach-bind _ _ (ensure_ephemeral-Reach vs req) λ _ us.
            Leads-attempt_id _ req.volume_id _
              (λ _. Leads-Frames _ _ (record { at = λ s. refl }) here)
              λ v found.
                Leads-fail_if _
                  (has_single_writer_access_mode c
                    && is_mounted_elsewhere req.target_path v.published)
                  _ _ here
                  λ _. Leads-check_staged _ req v _ here λ staged.
                    Leads-frame _ _ _ (Frames-bind_mount req c v) here
                      λ fresh. record_published-Reach us req v fresh found staged

  pub publish-Reach :
      (vs : List Volume) (req : NodePublishRequest)
      → Leads vs (Reach env.config (is_ephemeral env req) vs) (node_publish_volume env req)
  unfolding node_publish_volume is_ephemeral
  publish-Reach vs req = elim (Option-cases req.volume_capability) [
    | inl e ↦ rw (e, node_publish_volume) (Leads-Frames _ _ (Frames-raise _) here)
    | inr (c, e) ↦ rw (e, node_publish_volume) (publish_with-Reach vs req c)
  ]

  pub Frames-unmount_if_mounted :
      (path : String) (r : OsError ⊎ Bool) → Frames (unmount_if_mounted env path r)
  unfolding unmount_if_mounted
  Frames-unmount_if_mounted path (inl not_exist) = search frames_rules
  Frames-unmount_if_mounted path (inl _) = search frames_rules
  Frames-unmount_if_mounted path (inr true) = search frames_rules
  Frames-unmount_if_mounted path (inr false) = search frames_rules

  Frames-unless_not_exist_error : (r : Error ⊎ Unit {0}) → Frames (unless_not_exist_error env r)
  unfolding unless_not_exist_error
  Frames-unless_not_exist_error (inr _) = search frames_rules
  Frames-unless_not_exist_error (inl (os_error not_exist)) = search frames_rules
  Frames-unless_not_exist_error (inl _) = search frames_rules

  pub unpublish-Reach :
      {eph : Bool} (vs : List Volume) (volume_id path : String)
      → Leads vs (Reach env.config eph vs) (node_unpublish_volume env volume_id path)
  unfolding node_unpublish_volume
  unpublish-Reach vs volume_id path = Leads-fail_if _ (volume_id == "") _ _ here λ _.
      Leads-fail_if _ (path == "") _ _ here λ _.
        Leads-get_volume_by_id _ volume_id _ here λ v found.
          Leads-if _ (not (Strings.has path v.published)) _ _
            (λ _. Leads-Frames _ _ (Frames-pure tt) here)
            λ published. Leads-frame _ _ _ (Frames-call _) here λ mounted.
              Leads-frame _ _ _ (Frames-unmount_if_mounted path mounted) here λ _.
                Leads-frame _ _ _ (Frames-call _) here λ e.
                  Leads-frame _ _ _ (Frames-fail_with e formatted) here λ _.
                    Leads-if _ v.ephemeral _ _
                      (λ _.
                        Reach-bind _ _ (Leads-attempt _ _ (delete_hostpath-Reach env vs volume_id))
                          (λ r us. Leads-Frames _ _ (Frames-unless_not_exist_error r) here))
                      λ _.
                        Leads-update_volume env.disk _ _
                          (one (unpublish volume_id v path found (ground arith) refl))
