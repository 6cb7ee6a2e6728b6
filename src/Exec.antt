-- ===== src/Exec.antt =====
-- Methods that mutate an object and return `(T, error)`. What was written before an error is returned
-- stays written, so the state comes back beside the error too. `panicked` is a Go run-time panic,
-- which no method recovers from.
use csi.Prelude.{◌≡◌, refl, ap, Bool, true, false, Option, none, some, ◌⊎◌, inl, inr}

-- The codes of google.golang.org/grpc/codes that the driver returns.
pub data Code : Type 0 where
  aborted already_exists failed_precondition internal invalid_argument not_found : Code
  out_of_range resource_exhausted unavailable unimplemented : Code

-- What `os.IsExist` and `os.IsNotExist` tell apart.
pub data OsError : Type 0 where
  exist not_exist other : OsError

-- `status.Error(f)`, an error that comes from the os package as it is, and `fmt.Errorf` or
-- `errors.New`, which those two tests do not look into. The texts are not modelled.
pub data Error : Type 0 where
  status : Code → Error
  os_error : OsError → Error
  formatted : Error

pub data Result {ℓ} (A : Type ℓ) : Type ℓ where
  ok : A → Result A
  err : Error → Result A
  panicked : Result A

abbrev pub Exec {ℓ} : Type ℓ → Type ℓ → Type ℓ
Exec S A = S → Result A × S

module _ {ℓ} {S A : Type ℓ} where
  abbrev pub pure : A → Exec S A
  pure a s = (ok a, s)

  abbrev pub raise : Error → Exec S A
  raise e s = (err e, s)

  abbrev pub panic : Exec S A
  panic s = (panicked, s)

  abbrev pub gets : (S → A) → Exec S A
  gets f s = (ok (f s), s)

  -- `if err != nil { return err }` on a result.
  abbrev pub lift : Result A → Exec S A
  lift r s = (r, s)

module _ {ℓ} {S A B : Type ℓ} where
  abbrev pub continue : Result A → (A → Exec S B) → Exec S B
  continue (ok a) f s = f a s
  continue (err e) f s = (err e, s)
  continue panicked f s = (panicked, s)

  infixl 5 ◌>>=◌ ◌>>◌
  abbrev pub ◌>>=◌ : Exec S A → (A → Exec S B) → Exec S B
  ◌>>=◌ m f s = let (r, s') = m s in continue r f s'

  abbrev pub ◌>>◌ : Exec S A → Exec S B → Exec S B
  m >> n = m >>= λ _. n

  -- An action after one that succeeded.
  pub bind-ok :
      (m : Exec S A) (f : A → Exec S B) (s s' : S) (a : A) → m s ≡ (ok a, s') → (m >>= f) s ≡ f a s'
  bind-ok m f s s' a h = ap (λ (x : Result A × S). continue x.0 f x.1) h

  -- The rest of a call after its first part, if both succeed.
  pub continue-ok :
      (r : Result A) (f : A → Exec S B) (s t : S) (b : B)
      → continue r f s ≡ (ok b, t)
      → (a : A) × (r ≡ ok a) × (f a s ≡ (ok b, t))
  continue-ok (ok a) f s t b h = (a, refl, h)
  continue-ok (err e) f s t b h = cc
  continue-ok panicked f s t b h = cc

module _ {S : Type 0} where
  -- `if b { return nil, e }`
  abbrev pub fail_if : Bool → Error → Exec S (Unit {0})
  fail_if true e = raise e
  fail_if false e = pure tt

  -- `if err != nil { return nil, fmt.Errorf(…) }` after a call that returns only an error.
  abbrev pub fail_with : Option OsError → Error → Exec S (Unit {0})
  fail_with none e = pure tt
  fail_with (some x) e = raise e

module _ {S A : Type 0} where
  abbrev pub attempted : Result A → Exec S (Error ⊎ A)
  attempted (ok a) s = (ok (inr a), s)
  attempted (err e) s = (ok (inl e), s)
  attempted panicked s = (panicked, s)

  -- Run a call and hand its error, if any, to the caller.
  abbrev pub attempt : Exec S A → Exec S (Error ⊎ A)
  attempt m s = let (r, s') = m s in attempted r s'
