-- ===== src/HostPath/Controller/Refines.antt =====
-- `CreateVolume` and `DeleteVolume` take only steps of the life cycle.
use csi.Prelude.{
  String, ◌≡◌, refl, Bool, false, ◌&&◌, Option, none, some, List, ◌⊎◌, inl, inr, ◌==◌,
}
use csi.Prelude.Int.{ℤ}
use csi.Exec.{Error, status, not_found}
use csi.State.Types.{AccessType, Volume}
use csi.State.Table.{find}
use csi.State.Store.{volume_name}
use csi.HostPath.Env.{Env}
use csi.HostPath.Requests.{
  ContentSource, from_snapshot, from_volume, no_source_type, CreateVolumeRequest,
}
use csi.HostPath.Capabilities.{create_delete_volume, validate_controller_service_request}
use csi.HostPath.Core.Frames.{
  create-Reach as create_hostpath-Reach, delete-Reach as delete_hostpath-Reach,
}
use csi.HostPath.Populate.Frames.{Frames-load_from_snapshot, Frames-load_from_volume}
use csi.HostPath.Controller.{
  populate, undo_on_error, populate_from, create_or_reuse, create_volume, requested_access_type,
  validate_mutable_parameters, formatted_error, in_use, delete_if_unused, delete_volume,
}
use csi.HostPath.Leads.{
  Leads, Frames, Leads-Frames, Leads-frame, Leads-fail_if, Leads-attempt, Leads-attempt_id,
  Leads-attempt_name, Frames-lift, Frames-call, Frames-pure, Frames-raise, Frames-attempt,
  frames_rules,
}
use csi.HostPath.Lifecycle.{Reach, here}
use csi.HostPath.Lifecycle.Rules.{Reach-bind}

module _ {W : Type 0} (env : Env W) where
  pub Frames-populate :
      (cap : ℤ) (access_type : AccessType) (path : String) (source : ContentSource)
      → Frames (populate env cap access_type path source)
  unfolding populate
  Frames-populate cap access_type path (from_snapshot none) = search frames_rules
  Frames-populate cap access_type path (from_snapshot (some id)) =
      Frames-load_from_snapshot env cap id path access_type
  Frames-populate cap access_type path (from_volume none) = search frames_rules
  Frames-populate cap access_type path (from_volume (some id)) =
      Frames-load_from_volume env cap id path access_type
  Frames-populate cap access_type path no_source_type = search frames_rules

  undo_on_error-Reach :
      {eph : Bool} (vs : List Volume) (volume_id : String) (r : Error ⊎ Unit {0})
      → Leads vs (Reach env.config eph vs) (undo_on_error env volume_id r)
  unfolding undo_on_error
  undo_on_error-Reach vs volume_id (inr _) = Leads-Frames _ _ (search frames_rules) here
  undo_on_error-Reach vs volume_id (inl e) =
      Reach-bind _ _ (Leads-attempt _ _ (delete_hostpath-Reach env vs volume_id))
        (λ _ us. Leads-Frames _ _ (Frames-raise e) here)

  populate_from-Reach :
      {eph : Bool} (vs : List Volume) (req : CreateVolumeRequest) (access_type : AccessType)
      (volume_id : String) (source : Option ContentSource)
      → req.volume_content_source ≡ source
      → Leads vs (Reach env.config eph vs) (populate_from env req access_type volume_id)
  unfolding populate_from
  populate_from-Reach vs req access_type volume_id none e =
      rw (e, populate_from) (Leads-Frames _ _ (Frames-pure tt) here)
  populate_from-Reach vs req access_type volume_id (some source) e =
      rw (e, populate_from)
        (Leads-frame _ _ _ (Frames-attempt _ (Frames-populate _ access_type _ source)) here
          λ r. undo_on_error-Reach vs volume_id r)

  create_or_reuse-Reach :
      {eph : Bool} (vs : List Volume) (req : CreateVolumeRequest) (access_type : AccessType)
      (e : Error)
      → find volume_name req.name vs ≡ none
      → Leads vs (Reach env.config eph vs) (create_or_reuse env req access_type (inl e))
  unfolding create_or_reuse
  create_or_reuse-Reach vs req access_type e fresh =
      Leads-frame _ _ _ (Frames-call _) here λ volume_id.
        Reach-bind _ _ (create_hostpath-Reach env vs volume_id req.name _ access_type false _ fresh)
          λ _ us.
            Reach-bind _ _ (populate_from-Reach us req access_type volume_id _ refl)
              (λ _ ws. Leads-Frames _ _ (Frames-pure _) here)

  -- An existing volume is looked at and left as it is.
  pub Frames-reuse :
      (req : CreateVolumeRequest) (access_type : AccessType) (ex : Volume)
      → Frames (create_or_reuse env req access_type (inr ex))
  unfolding create_or_reuse
  Frames-reuse req access_type ex = search frames_rules depth 8

  pub create-Reach :
      {eph : Bool} (vs : List Volume) (req : CreateVolumeRequest)
      → Leads vs (Reach env.config eph vs) (create_volume env req)
  unfolding create_volume
  create-Reach vs req =
      Leads-frame _ _ _
        (Frames-lift (validate_controller_service_request env.config create_delete_volume)) here
        λ _.
          Leads-frame _ _ _ (Frames-lift (validate_mutable_parameters env req.mutable_parameters))
            here
            λ _. Leads-fail_if _ (req.name == "") _ _ here λ _.
              Leads-frame _ _ _ (Frames-lift (requested_access_type req.volume_capabilities)) here
                λ access_type.
                  Leads-attempt_name _ req.name (create_or_reuse env req access_type)
                    (λ fresh. create_or_reuse-Reach vs req access_type (status not_found) fresh)
                    (λ ex _. Leads-Frames _ _ (Frames-reuse req access_type ex) here)

  Frames-formatted_error : (r : Error ⊎ Unit {0}) → Frames (formatted_error env r)
  unfolding formatted_error
  Frames-formatted_error (inl _) = search frames_rules
  Frames-formatted_error (inr _) = search frames_rules

  delete_if_unused-Reach :
      {eph : Bool} (vs : List Volume) (vol_id : String) (found : Error ⊎ Volume)
      → Leads vs (Reach env.config eph vs) (delete_if_unused env vol_id found)
  unfolding delete_if_unused
  delete_if_unused-Reach vs vol_id (inl _) = Leads-Frames _ _ (search frames_rules) here
  delete_if_unused-Reach vs vol_id (inr v) =
      Leads-fail_if _ (in_use env v && env.config.check_volume_lifecycle) _ _ here λ _.
        Reach-bind _ _ (Leads-attempt _ _ (delete_hostpath-Reach env vs vol_id))
          (λ r us. Leads-Frames _ _ (Frames-formatted_error r) here)

  pub delete-Reach :
      {eph : Bool} (vs : List Volume) (vol_id : String)
      → Leads vs (Reach env.config eph vs) (delete_volume env vol_id)
  unfolding delete_volume
  delete-Reach vs vol_id = Leads-fail_if _ (vol_id == "") _ _ here λ _.
      Leads-frame _ _ _ (Frames-lift _) here λ _.
        Leads-attempt_id _ vol_id _ (λ _. delete_if_unused-Reach vs vol_id (inl (status not_found)))
          (λ v _. delete_if_unused-Reach vs vol_id (inr v))
