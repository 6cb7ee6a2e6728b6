-- ===== src/HostPath/Attach/Retry.antt =====
-- Attaching may be repeated: `ControllerPublishVolume` is idempotent, as the CSI specification wants.
use csi.Prelude.{
  ◌≡◌, ◌≢◌, refl, ap, sym, ◌∙◌, subst, inl, inr, Bool-cases, Bool, true, not, none, some, ◌==◌,
  arith, Option-cases,
}
use csi.Exec.{
  ok, Exec, status, unimplemented, invalid_argument, not_found, attempt, fail_if, ◌>>=◌, ◌>>◌,
}
use csi.State.Types.{Volume}
use csi.State.Table.{find, key-find}
use csi.State.Laws.{find-update_volume}
use csi.State.Store.{Store, volume_key, get_volume_by_id}
use csi.HostPath.Env.{Env}
use csi.HostPath.Requests.{ControllerPublishRequest}
use csi.HostPath.Controller.{is_nil}
use csi.HostPath.Attach.{publish_found, attach_if_room, controller_publish_volume, bool_eq}
use csi.HostPath.Leads.{volumes_of}

bool_eq_refl : (b : Bool) → bool_eq b b ≡ true
bool_eq_refl b = ground arith

module _ {W : Type 0} (env : Env W) where
  found_again :
      (req : ControllerPublishRequest) (v : Volume) (s : Store W)
      → find volume_key v.vol_id (volumes_of s) ≡ some v
      → (publish_found env req (inr v) s).0 ≡ ok tt
      → let t = (publish_found env req (inr v) s).1 in
        (u : Volume) × (find volume_key v.vol_id (volumes_of t) ≡ some u)
        × (u.attached ≡ true)
        × (bool_eq req.readonly u.read_only_attach ≡ true)
  unfolding publish_found attach_if_room
  found_again req v s found h = elim (Bool-cases v.attached) [
    | inl e ↦ (v, ground arith, e, ground arith)
    | inr e ↦
        let u = record v { attached = true; read_only_attach = req.readonly } in
        (u, ground (arith, find-update_volume env.disk u s), refl, bool_eq_refl req.readonly)
  ]

  attached_again :
      (req : ControllerPublishRequest) (u : Volume) (t : Store W)
      → u.attached ≡ true
      → bool_eq req.readonly u.read_only_attach ≡ true
      → publish_found env req (inr u) t ≡ (ok tt, t)
  unfolding publish_found
  attached_again req u t e f = rw (e, f) refl

  -- The checks before the lookup of the ID look at the request only.
  checked : Bool → Bool → Bool → Bool → Bool → Exec (Store W) (Unit {0}) → Exec (Store W) (Unit {0})
  checked a b c d f m =
      fail_if a (status unimplemented)
      >> (fail_if b (status invalid_argument)
          >> (fail_if c (status invalid_argument)
              >> (fail_if d (status invalid_argument) >> (fail_if f (status not_found) >> m))))

  past_checks :
      (a b c d f : Bool) (m : Exec (Store W) (Unit {0})) (s : Store W)
      → (checked a b c d f m s).0 ≡ ok tt
      → (t : Store W) → checked a b c d f m t ≡ m t
  unfolding checked
  past_checks a b c d f m s h t = ground arith

  attach_past_checks :
      (req : ControllerPublishRequest) (s : Store W)
      → (controller_publish_volume env req s).0 ≡ ok tt
      → (t : Store W)
      → controller_publish_volume env req t
        ≡ (attempt (get_volume_by_id req.volume_id) >>= publish_found env req) t
  unfolding controller_publish_volume checked
  attach_past_checks req s h t =
      past_checks (not env.config.enable_attach) (req.volume_id == "") (req.node_id == "")
        (is_nil req.volume_capability) (not (req.node_id == env.config.node_id))
        (attempt (get_volume_by_id req.volume_id) >>= publish_found env req) s h t

  attach_found :
      (req : ControllerPublishRequest) (v : Volume) (s : Store W)
      → find volume_key req.volume_id (volumes_of s) ≡ some v
      → (attempt (get_volume_by_id req.volume_id) >>= publish_found env req) s
        ≡ publish_found env req (inr v) s
  unfolding get_volume_by_id
  attach_found req v s found = rw found refl

  attach_unknown :
      (req : ControllerPublishRequest) (s : Store W)
      → find volume_key req.volume_id (volumes_of s) ≡ none
      → ((attempt (get_volume_by_id req.volume_id) >>= publish_found env req) s).0 ≢ ok tt
  unfolding get_volume_by_id publish_found
  attach_unknown req s absent h = ground arith

  -- A volume that was attached with success is attached in the mode asked for, and to attach it in
  -- that mode again succeeds and changes nothing, whatever the attach limit.
  pub attach-again :
      (req : ControllerPublishRequest) (s : Store W)
      → (controller_publish_volume env req s).0 ≡ ok tt
      → let t = (controller_publish_volume env req s).1 in
        ((u : Volume) × (find volume_key req.volume_id (volumes_of t) ≡ some u)
          × (u.attached ≡ true)
          × (bool_eq req.readonly u.read_only_attach ≡ true))
        × (controller_publish_volume env req t ≡ (ok tt, t))
  attach-again req s h = elim (Option-cases (find volume_key req.volume_id (volumes_of s))) [
    | inl e ↦
        absurd (attach_unknown req s e (ap (λ x. x.0) (sym (attach_past_checks req s h s)) ∙ h))
    | inr (v, e) ↦
        let past = attach_past_checks req s h in
        let here = past s ∙ attach_found req v s e in
        let id = key-find volume_key req.volume_id (volumes_of s) {a = v} e in
        let fine = ap (λ x. x.0) (sym here) ∙ h in
        let result =
          found_again req v s (subst (λ k. find volume_key k (volumes_of s) ≡ some v) (sym id) e)
            fine in
        subst
          (λ x.
            ((u : Volume) × (find volume_key req.volume_id (volumes_of x.1) ≡ some u)
              × (u.attached ≡ true)
              × (bool_eq req.readonly u.read_only_attach ≡ true))
            × (controller_publish_volume env req x.1 ≡ (ok tt, x.1)))
          (sym here)
          (let (u, found, on, mode) = result in
            let t = (publish_found env req (inr v) s).1 in
            let at_id = subst (λ k. find volume_key k (volumes_of t) ≡ some u) id found in
            (
              (u, at_id, on, mode),
              past t ∙ attach_found req u t at_id ∙ attached_again req u t on mode,
            ))
  ]
