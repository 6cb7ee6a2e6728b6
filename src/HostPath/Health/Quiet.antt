-- ===== src/HostPath/Health/Quiet.antt =====
-- The health checks leave the state as it is, and always end with a verdict.
use csi.Prelude.{
  String, ◌≡◌, ◌≢◌, refl, ◌∙◌, Bool, true, false, Option, none, some, ◌⊎◌, inl, inr, if◌then◌else◌,
}
use csi.Exec.{
  Exec, Error, OsError, not_exist, exist, other, Result, ok, err, panicked, pure, raise, fail_if,
  attempt, attempted, continue, ◌>>=◌,
}
use csi.Prelude.Cut.{contains}
use csi.State.Types.{Volume}
use csi.State.Table.{find}
use csi.State.Store.{Store, volume_key, or_not_found, get_volume_by_id}
use csi.HostPath.Env.{Env, FileMode, MountPoints, no_mount_points, more, call, get_volume_path}
use csi.HostPath.Health.{
  Message, no_text, source_missing, too_small, no_space, not_mounted, error_text, target_of,
  source_of, found, check_mounts, or_formatted, or_os_error, parsed, after_check, check,
  check_path_exist, check_pv_capacity_valid, check_pv_usage, check_mount_point_exist,
  do_health_check_in_controller_side, do_health_check_in_node_side,
}

module _ {W : Type 0} where
  -- No panic, and the resources of the state stay.
  pub record Quiet {A : Type 0} (m : Exec (Store W) A) : Type 0 where
    pub at : (s : Store W) → ((m s).0 ≢ panicked) × ((m s).1.resources ≡ s.resources)

  module _ {A : Type 0} where
    pub Quiet-pure : (a : A) → Quiet (pure a)
    Quiet-pure a = record { at = λ s. (λ h. cc, refl) }

    pub Quiet-raise : (e : Error) → Quiet (raise {A = A} e)
    Quiet-raise e = record { at = λ s. (λ h. cc, refl) }

    pub Quiet-call : (f : W → A × W) → Quiet (call f)
    unfolding call
    Quiet-call f = record { at = λ s. (λ h. cc, refl) }

    pub Quiet-if :
        (b : Bool) (m n : Exec (Store W) A) → Quiet m → Quiet n → Quiet (if b then m else n)
    Quiet-if true m n p q = p
    Quiet-if false m n p q = q

    attempted-Quiet :
        (r : Result A) (s : Store W)
        → r ≢ panicked
        → ((attempted r s).0 ≢ panicked) × ((attempted r s).1.resources ≡ s.resources)
    attempted-Quiet (ok a) s calm = (λ h. cc, refl)
    attempted-Quiet (err e) s calm = (λ h. cc, refl)
    attempted-Quiet panicked s calm = absurd (calm refl)

    pub Quiet-attempt : (m : Exec (Store W) A) → Quiet m → Quiet (attempt m)
    Quiet-attempt m q = record {
      at = λ s.
          let (r, u) = m s in
          let (calm, same) = q.at s in
          let (calm', same') = attempted-Quiet r u calm in (calm', same' ∙ same);
    }

  pub Quiet-fail_if : (b : Bool) (e : Error) → Quiet (fail_if b e)
  Quiet-fail_if true e = Quiet-raise e
  Quiet-fail_if false e = Quiet-pure tt

  pub Quiet-get_volume_by_id : (k : String) → Quiet (get_volume_by_id k)
  unfolding get_volume_by_id
  Quiet-get_volume_by_id k = record {
    at = λ s. (calm (find volume_key k s.resources.volumes), refl);
  }
    where
      calm : (o : Option Volume) → or_not_found o ≢ panicked
      calm none h = cc
      calm (some v) h = cc

  module _ {A B : Type 0} where
    continue-Quiet :
        (r : Result A) (f : A → Exec (Store W) B) (s : Store W)
        → r ≢ panicked
        → ((a : A) → Quiet (f a))
        → ((continue r f s).0 ≢ panicked) × ((continue r f s).1.resources ≡ s.resources)
    continue-Quiet (ok a) f s calm q = (q a).at s
    continue-Quiet (err e) f s calm q = (λ h. cc, refl)
    continue-Quiet panicked f s calm q = absurd (calm refl)

    pub Quiet-bind :
        (m : Exec (Store W) A) (f : A → Exec (Store W) B)
        → Quiet m
        → ((a : A) → Quiet (f a))
        → Quiet (m >>= f)
    Quiet-bind m f q k = record {
      at = λ s.
          let (r, u) = m s in
          let (calm, same) = q.at s in
          let (calm', same') = continue-Quiet r f u calm k in (calm', same' ∙ same);
    }

pub ruleset quiet_rules = (
  Quiet-pure, Quiet-raise, Quiet-call, Quiet-attempt, Quiet-fail_if, Quiet-get_volume_by_id,
  Quiet-bind,
)

module _ {W : Type 0} (env : Env W) where
  Quiet-found : (out : OsError ⊎ FileMode) → Quiet (found env out)
  unfolding found
  Quiet-found (inr mode) = search quiet_rules
  Quiet-found (inl not_exist) = search quiet_rules
  Quiet-found (inl exist) = search quiet_rules
  Quiet-found (inl other) = search quiet_rules

  Quiet-or_formatted : {A : Type 0} (out : OsError ⊎ A) → Quiet (or_formatted env out)
  unfolding or_formatted
  Quiet-or_formatted (inl e) = search quiet_rules
  Quiet-or_formatted (inr a) = search quiet_rules

  Quiet-or_os_error : {A : Type 0} (out : OsError ⊎ A) → Quiet (or_os_error env out)
  unfolding or_os_error
  Quiet-or_os_error (inl e) = search quiet_rules
  Quiet-or_os_error (inr a) = search quiet_rules

  Quiet-parsed : (out : Error ⊎ MountPoints) → Quiet (parsed env out)
  unfolding parsed
  Quiet-parsed (inl e) = search quiet_rules
  Quiet-parsed (inr ms) = search quiet_rules

  ruleset health_rules =
      (quiet_rules, Quiet-found, Quiet-or_formatted, Quiet-or_os_error, Quiet-parsed)

  Quiet-check_path_exist : (path : String) → Quiet (check_path_exist env path)
  unfolding check_path_exist
  Quiet-check_path_exist path = search health_rules

  Quiet-check_mounts : (path : String) (ms : MountPoints) → Quiet (check_mounts env path ms)
  unfolding check_mounts
  Quiet-check_mounts path no_mount_points = Quiet-pure false
  Quiet-check_mounts path (more m ms) =
      Quiet-if (contains (source_of m) path) (call (env.stat (target_of m)) >>= found env)
        (check_mounts env path ms) (search health_rules) (Quiet-check_mounts path ms)

  Quiet-check_mount_point_exist : (path : String) → Quiet (check_mount_point_exist env path)
  unfolding check_mount_point_exist
  Quiet-check_mount_point_exist path = search (health_rules, Quiet-check_mounts) depth 12

  Quiet-check_pv_capacity_valid : (k : String) → Quiet (check_pv_capacity_valid env k)
  unfolding check_pv_capacity_valid
  Quiet-check_pv_capacity_valid k = search health_rules depth 10

  Quiet-check_pv_usage : (k : String) → Quiet (check_pv_usage env k)
  unfolding check_pv_usage
  Quiet-check_pv_usage k = search health_rules depth 10

  -- A verdict, with a text exactly where it is a bad one, and the state as it was.
  abbrev pub IsVerdict : Bool × Message → Type 0
  IsVerdict (b, text) = ((b ≡ true) × (text ≡ no_text)) ⊎ ((b ≡ false) × (text ≢ no_text))

  abbrev pub Answers : Exec (Store W) (Bool × Message) → Type 0
  Answers m =
      (s : Store W)
      → (v : Bool × Message) × ((m s).0 ≡ ok v) × IsVerdict v × ((m s).1.resources ≡ s.resources)

  check-Answers :
      (m : Exec (Store W) Bool) (text : Message) (next : Exec (Store W) (Bool × Message))
      → Quiet m
      → text ≢ no_text
      → Answers next
      → Answers (check env m text next)
  unfolding check after_check
  check-Answers m text next q bad answers s =
      let (r, u) = m s in
      let (calm, same) = q.at s in
      let (v, h, verdict, same') = judged r u calm in (v, h, verdict, same' ∙ same)
    where
      judged :
          (r : Result Bool) (u : Store W)
          → r ≢ panicked
          → (v : Bool × Message) × (((attempted r >>= after_check env text next) u).0 ≡ ok v)
            × IsVerdict v
            × (((attempted r >>= after_check env text next) u).1.resources ≡ u.resources)
      judged (ok true) u calm = answers u
      judged (ok false) u calm = ((false, text), refl, inr (refl, bad), refl)
      judged (err e) u calm = ((false, error_text e), refl, inr (refl, λ h. cc), refl)
      judged panicked u calm = absurd (calm refl)

  healthy-Answers : Answers (pure (true, no_text))
  healthy-Answers s = ((true, no_text), refl, inl (refl, refl), refl)

  -- The health check of the controller side
  pub controller_side-Answers :
      (vol_id : String) → Answers (do_health_check_in_controller_side env vol_id)
  unfolding do_health_check_in_controller_side
  controller_side-Answers vol_id =
      check-Answers _ source_missing _ (Quiet-check_path_exist (get_volume_path env vol_id))
        (λ h. cc)
        (check-Answers _ too_small _ (Quiet-check_pv_capacity_valid vol_id) (λ h. cc)
          (check-Answers _ no_space _ (Quiet-check_pv_usage vol_id) (λ h. cc) healthy-Answers))

  -- The health check of the node side always ends with a verdict, leaves the resources of the
  -- state alone, and gives a text exactly when the verdict is a bad one.
  pub node_side-Answers : (vol_id : String) → Answers (do_health_check_in_node_side env vol_id)
  unfolding do_health_check_in_node_side
  node_side-Answers vol_id =
      check-Answers _ not_mounted _ (Quiet-check_mount_point_exist (get_volume_path env vol_id))
        (λ h. cc) healthy-Answers
