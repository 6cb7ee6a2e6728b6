-- ===== src/HostPath/Stage/Refines.antt =====
-- The methods of the node that stage and expand volumes take only steps of the life cycle.
use csi.Prelude.{
  String, ◌≡◌, refl, Bool, true, false, not, ◌&&◌, Option, none, some, List, ◌⊎◌, inl, inr, arith,
  ◌==◌,
}
use csi.Prelude.Int.{ℤ}
use csi.Exec.{OsError}
use csi.State.Strings
use csi.State.Types.{Volume}
use csi.HostPath.Env.{Env, FileMode, directory, device, other_file}
use csi.HostPath.Requests.{NodeStageRequest, NodeExpandRequest}
use csi.HostPath.Controller.{is_nil}
use csi.HostPath.Stage.{
  node_stage_volume, node_unstage_volume, resize_volume, check_mode, node_expand_to,
  node_expand_volume,
}
use csi.HostPath.Leads.{
  Leads, Frames, Leads-Frames, Leads-fail_if, Leads-if, Leads-get_volume_by_id, Leads-update_volume,
  Frames-pure, frames_rules,
}
use csi.HostPath.Lifecycle.{stage, unstage, Reach, here, one}

not-true : (b : Bool) → not b ≡ false → b ≡ true
not-true b h = ground arith

and_not : (a b : Bool) → (a && not b) ≡ false → a ≡ true → b ≡ true
and_not a b h e = ground arith

module _ {W : Type 0} (env : Env W) (vs : List Volume) where
  pub stage-Reach :
      {eph : Bool} (req : NodeStageRequest)
      → Leads vs (Reach env.config eph vs) (node_stage_volume env req)
  unfolding node_stage_volume
  stage-Reach req =
      let path = req.staging_target_path in
      Leads-fail_if _ (req.volume_id == "") _ _ here λ _. Leads-fail_if _ (path == "") _ _ here λ _.
        Leads-fail_if _ (is_nil req.volume_capability) _ _ here λ _.
          Leads-get_volume_by_id _ req.volume_id _ here λ v found.
            Leads-fail_if _ (env.config.enable_attach && not v.attached) _ _ here λ attached.
              Leads-if _ (Strings.has path v.staged) _ _
                (λ _. Leads-Frames _ _ (Frames-pure tt) here)
                λ _. Leads-fail_if _ (not (Strings.is_empty v.staged)) _ _ here λ empty.
                  Leads-update_volume env.disk _ _ (
                    one (
                      stage req.volume_id v path found (not-true _ empty)
                        (and_not env.config.enable_attach v.attached attached) refl))

  pub unstage-Reach :
      {eph : Bool} (volume_id path : String)
      → Leads vs (Reach env.config eph vs) (node_unstage_volume env volume_id path)
  unfolding node_unstage_volume
  unstage-Reach volume_id path = Leads-fail_if _ (volume_id == "") _ _ here λ _.
      Leads-fail_if _ (path == "") _ _ here λ _.
        Leads-get_volume_by_id _ volume_id _ here λ v found.
          Leads-if _ (not (Strings.has path v.staged)) _ _
            (λ _. Leads-Frames _ _ (Frames-pure tt) here)
            λ staged. Leads-fail_if _ (not (Strings.is_empty v.published)) _ _ here λ empty.
              Leads-update_volume env.disk _ _
                (one (unstage volume_id v path found (not-true _ staged) (not-true _ empty) refl))

  Frames-check_mode : (v : Volume) (info : OsError ⊎ FileMode) → Frames (check_mode env v info)
  unfolding check_mode
  Frames-check_mode v (inl _) = search frames_rules
  Frames-check_mode v (inr directory) = search frames_rules
  Frames-check_mode v (inr device) = search frames_rules
  Frames-check_mode v (inr other_file) = search frames_rules

  Frames-node_expand_to :
      (req : NodeExpandRequest) (v : Volume) (o : Option ℤ) → Frames (node_expand_to env req v o)
  unfolding node_expand_to resize_volume
  Frames-node_expand_to req v none = search frames_rules
  Frames-node_expand_to req v (some capacity) = search (frames_rules, Frames-check_mode) depth 12

  -- Expanding on the node changes the quota and no volume of the state.
  pub Frames-node_expand_volume : (req : NodeExpandRequest) → Frames (node_expand_volume env req)
  unfolding node_expand_volume
  Frames-node_expand_volume req = search (frames_rules, Frames-node_expand_to) depth 12
