-- ===== src/HostPath/Leads/Framing.antt =====
-- Rules for an action that leaves the volumes of the state alone.
use csi.Prelude.{String, ◌≡◌, refl, ◌∙◌, Bool, true, false, Option, none, some, List, if◌then◌else◌}
use csi.Exec.{
  Exec, Result, Error, ok, err, panicked, pure, raise, panic, lift, fail_if, fail_with, OsError,
  attempt, attempted, gets, continue, ◌>>=◌,
}
use csi.State.Types.{Volume}
use csi.State.Store.{Store, get_volume_by_id, get_snapshot_by_id}
use csi.HostPath.Env.{call}

module _ {W : Type 0} where
  abbrev pub volumes_of : Store W → List Volume
  volumes_of s = s.resources.volumes

  -- The action leaves the volumes alone.
  pub record Frames {A : Type 0} (m : Exec (Store W) A) : Type 0 where
    pub at : (s : Store W) → volumes_of (m s).1 ≡ volumes_of s

module _ {W A : Type 0} where
  pub Frames-pure : (a : A) → Frames {W = W} (pure a)
  Frames-pure a = record { at = λ s. refl }

  pub Frames-raise : (e : Error) → Frames {W = W} (raise {A = A} e)
  Frames-raise e = record { at = λ s. refl }

  pub Frames-panic : Frames {W = W} (panic {A = A})
  Frames-panic = record { at = λ s. refl }

  pub Frames-lift : (r : Result A) → Frames {W = W} (lift r)
  Frames-lift r = record { at = λ s. refl }

  pub Frames-gets : (f : Store W → A) → Frames (gets f)
  Frames-gets f = record { at = λ s. refl }

  pub Frames-call : (f : W → A × W) → Frames (call f)
  unfolding call
  Frames-call f = record { at = λ s. refl }

  pub attempted-volumes : (r : Result A) (s : Store W) → volumes_of (attempted r s).1 ≡ volumes_of s
  attempted-volumes (ok a) s = refl
  attempted-volumes (err e) s = refl
  attempted-volumes panicked s = refl

  pub Frames-attempt : (m : Exec (Store W) A) → Frames m → Frames (attempt m)
  Frames-attempt m f = record { at = λ s. let (r, s') = m s in attempted-volumes r s' ∙ f.at s }

  pub Frames-if :
      (b : Bool) (m n : Exec (Store W) A) → Frames m → Frames n → Frames (if b then m else n)
  Frames-if true m n f g = f
  Frames-if false m n f g = g

module _ {W : Type 0} where
  pub Frames-fail_if : (b : Bool) (e : Error) → Frames {W = W} (fail_if b e)
  Frames-fail_if true e = record { at = λ s. refl }
  Frames-fail_if false e = record { at = λ s. refl }

  pub Frames-fail_with : (o : Option OsError) (e : Error) → Frames {W = W} (fail_with o e)
  Frames-fail_with none e = record { at = λ s. refl }
  Frames-fail_with (some _) e = record { at = λ s. refl }

  pub Frames-get_volume_by_id : (k : String) → Frames {W = W} (get_volume_by_id k)
  unfolding get_volume_by_id
  Frames-get_volume_by_id k = record { at = λ s. refl }

  pub Frames-get_snapshot_by_id : (k : String) → Frames {W = W} (get_snapshot_by_id k)
  unfolding get_snapshot_by_id
  Frames-get_snapshot_by_id k = record { at = λ s. refl }

module _ {W A B : Type 0} where
  continue-Frames :
      (f : A → Exec (Store W) B)
      → ((a : A) → Frames (f a))
      → (r : Result A) (s : Store W) → volumes_of (continue r f s).1 ≡ volumes_of s
  continue-Frames f h (ok a) s = (h a).at s
  continue-Frames f h (err e) s = refl
  continue-Frames f h panicked s = refl

  pub Frames-bind :
      (m : Exec (Store W) A) (f : A → Exec (Store W) B)
      → Frames m
      → ((a : A) → Frames (f a))
      → Frames (m >>= f)
  Frames-bind m f h k = record { at = λ s. let (r, s') = m s in continue-Frames f k r s' ∙ h.at s }

pub ruleset frames_rules = (
  Frames-pure, Frames-raise, Frames-lift, Frames-gets, Frames-call, Frames-attempt, Frames-if,
  Frames-fail_if, Frames-fail_with, Frames-get_volume_by_id, Frames-get_snapshot_by_id, Frames-bind,
)
