-- ===== src/HostPath/Attach/Refines.antt =====
-- The methods that attach, detach, expand and modify volumes take only steps of the life cycle.
use csi.Prelude.{
  String, ◌≡◌, refl, Bool, true, false, not, ◌&&◌, ◌||◌, Option, none, some, List, [], ◌∷◌, ◌⊎◌,
  inl, inr, arith, ◌==◌,
}
use csi.Prelude.Int.{ℤ, pos, ltb_ℤ, leb_ℤ, ◌<ℤ◌, le_of_not_ltb, lt_of_ltb}
use csi.Exec.{Error}
use csi.State.Strings
use csi.State.Types.{Volume}
use csi.State.Table.{find}
use csi.State.Store.{volume_key, get_volumes}
use csi.HostPath.Env.{Env, Dict}
use csi.HostPath.Requests.{VolumeCapability, ControllerPublishRequest, ControllerExpandRequest}
use csi.HostPath.Core.{count_attached}
use csi.HostPath.Controller.{is_nil}
use csi.HostPath.Attach.{
  attach_if_room, publish_found, controller_publish_volume, internal_error,
  controller_unpublish_volume, grow, expand_to, controller_expand_volume, as_not_found,
  controller_modify_volume, each_has_kind, validate_volume_capabilities,
}
use csi.HostPath.Leads.{
  Leads, Frames, Leads-Frames, Leads-bind, Leads-fail_if, Leads-if, Leads-attempt, Leads-attempt_id,
  Leads-get_volume_by_id, Leads-gets_volumes, Leads-update_volume, Frames-pure, Frames-bind,
  Frames-fail_if, frames_rules,
}
use csi.HostPath.Lifecycle.{attach, detach, expand, Reach, here, one}

room_left :
    (limit count : ℤ)
    → (ltb_ℤ (pos 0) limit && leb_ℤ limit count) ≡ false
    → pos 0 <ℤ limit
    → count <ℤ limit
room_left limit count h p = ground arith

not_in_use : (p s c : Bool) → ((not p || not s) && c) ≡ false → c ≡ true → (p ≡ true) × (s ≡ true)
not_in_use p s c h e = ground arith

module _ {W : Type 0} (env : Env W) (vs : List Volume) where
  attach_if_room-Reach :
      {eph : Bool} (req : ControllerPublishRequest) (v : Volume)
      → find volume_key req.volume_id vs ≡ some v
      → v.attached ≡ false
      → Leads vs (Reach env.config eph vs) (attach_if_room env req v (pos (count_attached vs 0)))
  unfolding attach_if_room
  attach_if_room-Reach req v found off =
      let limit = env.config.attach_limit in
      let count = pos (count_attached vs 0) in
      Leads-fail_if _ (ltb_ℤ (pos 0) limit && leb_ℤ limit count) _ _ here λ room.
        Leads-update_volume env.disk _ _
          (one (attach req.volume_id v req.readonly found off (room_left limit count room) refl))

  publish_found-Reach :
      {eph : Bool} (req : ControllerPublishRequest) (v : Volume)
      → find volume_key req.volume_id vs ≡ some v
      → Leads vs (Reach env.config eph vs) (publish_found env req (inr v))
  unfolding publish_found get_volumes
  publish_found-Reach req v found =
      Leads-if _ v.attached _ _ (λ _. Leads-Frames _ _ (Frames-fail_if _ _) here)
        λ off.
          Leads-gets_volumes _ (λ us. pos (count_attached us 0)) (attach_if_room env req v)
            (attach_if_room-Reach req v found off)

  pub publish-Reach :
      {eph : Bool} (req : ControllerPublishRequest)
      → Leads vs (Reach env.config eph vs) (controller_publish_volume env req)
  unfolding controller_publish_volume
  publish-Reach req = Leads-fail_if _ (not env.config.enable_attach) _ _ here λ _.
      Leads-fail_if _ (req.volume_id == "") _ _ here λ _.
        Leads-fail_if _ (req.node_id == "") _ _ here λ _.
          Leads-fail_if _ (is_nil req.volume_capability) _ _ here λ _.
            Leads-fail_if _ (not (req.node_id == env.config.node_id)) _ _ here λ _.
              Leads-attempt_id _ req.volume_id _
                (λ _. Leads-Frames _ _ (unfold publish_found in search frames_rules) here)
                (λ v found. publish_found-Reach req v found)

  Frames-internal_error : (r : Error ⊎ Unit {0}) → Frames (internal_error env r)
  unfolding internal_error
  Frames-internal_error (inl _) = search frames_rules
  Frames-internal_error (inr _) = search frames_rules

  pub unpublish-Reach :
      {eph : Bool} (volume_id node_id : String)
      → Leads vs (Reach env.config eph vs) (controller_unpublish_volume env volume_id node_id)
  unfolding controller_unpublish_volume
  unpublish-Reach volume_id node_id = Leads-fail_if _ (not env.config.enable_attach) _ _ here λ _.
      Leads-fail_if _ (volume_id == "") _ _ here λ _.
        Leads-fail_if _ (not (node_id == "") && not (node_id == env.config.node_id)) _ _ here λ _.
          Leads-attempt_id _ volume_id _ (λ _. Leads-Frames _ _ (search frames_rules) here)
            λ v found.
              Leads-fail_if _
                ((not (Strings.is_empty v.published) || not (Strings.is_empty v.staged))
                  && env.config.check_volume_lifecycle)
                _ _ here
                λ unused.
                  Leads-bind (Reach env.config _ vs) _ _ _
                    (Leads-attempt _ _ (
                      Leads-update_volume env.disk _ _
                        (one (detach volume_id v found (not_in_use _ _ _ unused) refl))))
                    (λ us r. r) (λ r us q. Leads-Frames _ _ (Frames-internal_error r) q)

  grow-Reach :
      {eph : Bool} (k : String) (v : Volume) (capacity : ℤ)
      → find volume_key k vs ≡ some v
      → ltb_ℤ env.config.max_volume_size capacity ≡ false
      → Leads vs (Reach env.config eph vs) (grow env v capacity)
  unfolding grow
  grow-Reach k v capacity found fits =
      Leads-if _ (ltb_ℤ v.vol_size capacity) _ _
        (λ smaller.
          Leads-bind (Reach env.config _ vs) _ _ _
            (Leads-update_volume env.disk _ _ (
              one (
                expand k v capacity found (lt_of_ltb v.vol_size capacity smaller)
                  (le_of_not_ltb env.config.max_volume_size capacity fits) refl)))
            (λ us r. r) (λ _ us r. Leads-Frames _ _ (Frames-pure _) r))
        (λ _. Leads-Frames _ _ (Frames-pure _) here)

  expand_to-Reach :
      {eph : Bool} (k : String) (o : Option ℤ)
      → Leads vs (Reach env.config eph vs) (expand_to env k o)
  unfolding expand_to
  expand_to-Reach k none = Leads-Frames _ _ (search frames_rules) here
  expand_to-Reach k (some capacity) =
      Leads-fail_if _ (ltb_ℤ env.config.max_volume_size capacity) _ _ here
        λ fits. Leads-get_volume_by_id _ k _ here λ v found. grow-Reach k v capacity found fits

  pub expand-Reach :
      {eph : Bool} (req : ControllerExpandRequest)
      → Leads vs (Reach env.config eph vs) (controller_expand_volume env req)
  unfolding controller_expand_volume
  expand-Reach req = Leads-fail_if _ (not env.config.enable_volume_expansion) _ _ here λ _.
      Leads-fail_if _ (req.volume_id == "") _ _ here
        λ _. expand_to-Reach req.volume_id req.capacity_range

  Frames-as_not_found : (r : Error ⊎ Volume) → Frames (as_not_found env r)
  unfolding as_not_found
  Frames-as_not_found (inl _) = search frames_rules
  Frames-as_not_found (inr _) = search frames_rules

  pub Frames-modify :
      (volume_id : String) (params : Dict String)
      → Frames (controller_modify_volume env volume_id params)
  unfolding controller_modify_volume
  Frames-modify volume_id params = search (frames_rules, Frames-as_not_found) depth 16

  Frames-each_has_kind : (caps : List VolumeCapability) → Frames (each_has_kind env caps)
  unfolding each_has_kind
  Frames-each_has_kind [] = search frames_rules
  Frames-each_has_kind (c ∷ cs) =
      Frames-bind _ _ (Frames-fail_if _ _) (λ _. Frames-each_has_kind cs)

  pub Frames-validate :
      (volume_id : String) (caps : List VolumeCapability)
      → Frames (validate_volume_capabilities env volume_id caps)
  unfolding validate_volume_capabilities
  Frames-validate volume_id caps = search (frames_rules, Frames-each_has_kind) depth 12
