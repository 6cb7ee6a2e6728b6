-- ===== src/Xfs/Quotaer/Keeps.antt =====
-- Rules for what an action of the quotaer keeps true of the projects, however it ends.
use csi.Prelude.{
  String, ◌<>◌, Option-cases, Option, none, some, ◌⊎◌, inl, inr, Bool, true, false, List, ◌≡◌,
}
use csi.Prelude.Decimal.{decimal}
use csi.State.Table.{find, upsert}
use csi.Exec.{
  Exec, Error, OsError, Result, ok, err, panicked, formatted, os_error, pure, raise, gets, fail_if,
  fail_with, attempt, attempted, continue, ◌>>=◌, ◌>>◌,
}
use csi.Xfs.Projects.{Project, directory_key}
use csi.Xfs.Quotaer.{
  System, Quotas, call, wrapped, or_os_error, dump, xfs_quota, limit, update_quota,
}

pub record Keeps {W A : Type 0} (P : List Project → Type 0) (m : Exec (Quotas W) A) : Type 0 where
  pub at : (s : Quotas W) → P s.directories → P (m s).1.directories

module _ {W A : Type 0} (P : List Project → Type 0) where
  pub Keeps-pure : (a : A) → Keeps {W = W} P (pure a)
  Keeps-pure a = record { at = λ s p. p }

  pub Keeps-raise : (e : Error) → Keeps {W = W} P (raise {A = A} e)
  Keeps-raise e = record { at = λ s p. p }

  pub Keeps-gets : (f : Quotas W → A) → Keeps P (gets f)
  Keeps-gets f = record { at = λ s p. p }

  pub Keeps-call : (f : W → A × W) → Keeps P (call f)
  Keeps-call f = record { at = λ s p. p }

  attempted-Keeps :
      (r : Result A) (s : Quotas W) → P s.directories → P (attempted r s).1.directories
  attempted-Keeps (ok a) s p = p
  attempted-Keeps (err e) s p = p
  attempted-Keeps panicked s p = p

  pub Keeps-attempt : (m : Exec (Quotas W) A) → Keeps P m → Keeps P (attempt m)
  Keeps-attempt m h = record { at = λ s p. let (r, s') = m s in attempted-Keeps r s' (h.at s p) }

  pub Keeps-wrapped : (done : Error ⊎ A) → Keeps {W = W} P (wrapped done)
  Keeps-wrapped (inl _) = Keeps-raise formatted
  Keeps-wrapped (inr a) = Keeps-pure a

module _ {W : Type 0} (P : List Project → Type 0) where
  pub Keeps-fail_if : (b : Bool) (e : Error) → Keeps {W = W} P (fail_if b e)
  Keeps-fail_if true e = record { at = λ s p. p }
  Keeps-fail_if false e = record { at = λ s p. p }

  pub Keeps-fail_with : (o : Option OsError) (e : Error) → Keeps {W = W} P (fail_with o e)
  Keeps-fail_with none e = record { at = λ s p. p }
  Keeps-fail_with (some _) e = record { at = λ s p. p }

module _ {W A B : Type 0} (P : List Project → Type 0) where
  continue-Keeps :
      (f : A → Exec (Quotas W) B)
      → ((a : A) → Keeps P (f a))
      → (r : Result A) (s : Quotas W) → P s.directories
      → P (continue r f s).1.directories
  continue-Keeps f h (ok a) s p = (h a).at s p
  continue-Keeps f h (err e) s p = p
  continue-Keeps f h panicked s p = p

  pub Keeps-bind :
      (m : Exec (Quotas W) A) (f : A → Exec (Quotas W) B)
      → Keeps P m
      → ((a : A) → Keeps P (f a))
      → Keeps P (m >>= f)
  Keeps-bind m f h k = record {
    at = λ s p. let (r, s') = m s in continue-Keeps f k r s' (h.at s p);
  }

pub ruleset keeps_rules = (
  Keeps-pure, Keeps-raise, Keeps-gets, Keeps-call, Keeps-attempt, Keeps-fail_if, Keeps-fail_with,
  Keeps-wrapped, Keeps-bind,
)

module _ {W : Type 0} (P : List Project → Type 0) (sys : System W) where
  pub Keeps-or_os_error : (e : Option OsError) → Keeps P (or_os_error sys e)
  unfolding or_os_error
  Keeps-or_os_error none = Keeps-pure P tt
  Keeps-or_os_error (some e) = Keeps-raise P (os_error e)

  pub Keeps-dump : Keeps P (dump sys)
  unfolding dump
  Keeps-dump = search (keeps_rules, Keeps-or_os_error) depth 10

  Keeps-limit_call :
      (command : List String)
      → Keeps P (call (sys.run command) >>= λ e. (fail_with e formatted >> dump sys))
  Keeps-limit_call command =
      Keeps-bind P (call (sys.run command)) (λ e. (fail_with e formatted >> dump sys))
        (Keeps-call P (sys.run command))
        λ e.
          Keeps-bind P (fail_with e formatted) (λ _. dump sys) (Keeps-fail_with P e formatted)
            λ _. Keeps-dump

  -- `UpdateQuota` writes at most the directory, with its ID.
  pub Keeps-update_quota :
      (k bhard : String)
      → ((p : Project) (ps : List Project)
          → find directory_key k ps ≡ some p
          → P ps
          → P (upsert directory_key (record p { bhard = bhard }) ps))
      → Keeps P (update_quota sys k bhard)
  unfolding update_quota limit
  Keeps-update_quota k bhard write = record {
    at = λ s v. elim (Option-cases (find directory_key k s.directories)) [
      | inl h ↦ rw h v
      | inr (p, h) ↦
          let q = record p { bhard = bhard } in
          let command = "limit -p bhard=" <> (bhard <> (" " <> decimal p.id)) in
          rw h (
            (Keeps-limit_call (xfs_quota sys command)).at
              (record s { directories = upsert directory_key q s.directories })
              (write p s.directories h v))
    ];
  }
