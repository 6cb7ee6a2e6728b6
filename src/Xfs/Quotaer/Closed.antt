-- ===== src/Xfs/Quotaer/Closed.antt =====
-- What a call of the quotaer keeps true of the projects, from what the two writes of the map keep: to write
-- an entry again, and to erase one.
use csi.Prelude.{ℕ, String, ◌<>◌, ◌≡◌, refl, Option, none, some, List, [], ◌∷◌}
use csi.Prelude.Decimal.{decimal}
use csi.Exec.{
  Result, OsError, exist, not_exist, other, formatted, raise, pure, attempt, ◌>>=◌, ◌>>◌,
}
use csi.State.Table.{find, upsert, erase}
use csi.Xfs.Ids.{next_id, generate_id}
use csi.Xfs.Projects.{Project, directory_key, ids_of}
use csi.Xfs.Quotaer.{
  System, Quotas, call, wrapped, change, dump, xfs_quota, update_quota, remove_project, registered,
  add_with, add_found, add_project, restored, restore_loop, restore_quotas,
}
use csi.Xfs.Quotaer.Keeps.{
  Keeps, Keeps-pure, Keeps-raise, Keeps-bind, Keeps-call, Keeps-attempt, Keeps-wrapped, Keeps-dump,
  Keeps-update_quota, keeps_rules,
}

pub record IsClosed (P : List Project → Type 0) : Type 0 where
  pub written :
      (k : String) (p : Project) (bhard : String) (ps : List Project)
      → find directory_key k ps ≡ some p
      → P ps
      → P (upsert directory_key (record p { bhard = bhard }) ps)
  pub erased : (k : String) (ps : List Project) → P ps → P (erase directory_key k ps)

module _ {W : Type 0} (P : List Project → Type 0) (closed : IsClosed P) (sys : System W) where
  Keeps-erase : (k : String) → Keeps {W = W} P (change (erase directory_key k))
  Keeps-erase k = record { at = λ s v. closed.erased k s.directories v }

  Keeps-saved : Keeps P (dump sys)
  Keeps-saved = Keeps-dump P sys

  pub Keeps-remove_project : (k : String) → Keeps P (remove_project sys k)
  unfolding remove_project
  Keeps-remove_project k = search (keeps_rules, Keeps-erase, Keeps-saved)

  pub Keeps-update : (k bhard : String) → Keeps P (update_quota sys k bhard)
  Keeps-update k bhard = Keeps-update_quota P sys k bhard (λ p ps. closed.written k p bhard ps)

  Keeps-wrapped_update :
      (p : Project) → Keeps P (attempt (update_quota sys p.directory p.bhard) >>= wrapped)
  Keeps-wrapped_update p =
      Keeps-bind P (attempt (update_quota sys p.directory p.bhard)) wrapped
        (Keeps-attempt P (update_quota sys p.directory p.bhard) (Keeps-update p.directory p.bhard))
        λ done. Keeps-wrapped P done

  Keeps-restored : (p : Project) (e : Option OsError) → Keeps P (restored sys p e)
  unfolding restored
  Keeps-restored p (some not_exist) =
      Keeps-bind P (attempt (remove_project sys p.directory)) (λ _. pure tt)
        (Keeps-attempt P (remove_project sys p.directory) (Keeps-remove_project p.directory))
        λ _. Keeps-pure P tt
  Keeps-restored p (some exist) = Keeps-wrapped_update p
  Keeps-restored p (some other) = Keeps-wrapped_update p
  Keeps-restored p none = Keeps-wrapped_update p

  Keeps-restore_loop : (ps : List Project) → Keeps P (restore_loop sys ps)
  unfolding restore_loop
  Keeps-restore_loop [] = Keeps-pure P tt
  Keeps-restore_loop (p ∷ ps) =
      Keeps-bind P (call (sys.stat p.directory)) (λ e. (restored sys p e >> restore_loop sys ps))
        (Keeps-call P (sys.stat p.directory))
        λ e.
          Keeps-bind P (restored sys p e) (λ _. restore_loop sys ps) (Keeps-restored p e)
            λ _. Keeps-restore_loop ps

  pub Keeps-restore_quotas : Keeps P (restore_quotas sys)
  unfolding restore_quotas
  Keeps-restore_quotas = search (keeps_rules, Keeps-restore_loop, Keeps-saved) depth 10

  Keeps-registered :
      (directory bhard : String) (id : ℕ) (e : Option OsError)
      → Keeps P (registered sys directory bhard id e)
  unfolding registered
  Keeps-registered directory bhard id (some _) =
      Keeps-bind P (change (erase directory_key directory)) (λ _. raise formatted)
        (Keeps-erase directory) λ _. Keeps-raise P formatted
  Keeps-registered directory bhard id none =
      search (keeps_rules, Keeps-update, Keeps-saved) depth 12

  Keeps-add_call :
      (directory bhard : String) (id : ℕ) (command : List String)
      → Keeps P (call (sys.run command) >>= registered sys directory bhard id)
  Keeps-add_call directory bhard id command =
      Keeps-bind P (call (sys.run command)) (registered sys directory bhard id)
        (Keeps-call P (sys.run command)) (Keeps-registered directory bhard id)

  pub Keeps-add_with :
      (id : ℕ) (directory bhard : String) (s : Quotas W)
      → P (
          upsert directory_key
            (record { directory = directory; id = id; bhard = bhard })
            s.directories)
      → P (add_with sys id directory bhard s).1.directories
  unfolding add_with
  Keeps-add_with id directory bhard s v =
      let p : Project = record { directory = directory; id = id; bhard = bhard } in
      let command = "project -s -p " <> (directory <> (" " <> decimal id)) in
      (Keeps-add_call directory bhard id (xfs_quota sys command)).at
        (record s { directories = upsert directory_key p s.directories }) v

module _ {W : Type 0} (sys : System W) where
  add_found-some :
      (found : Option ℕ) (directory bhard : String) (s t : Quotas W) (r : Result (String × ℕ))
      → add_found sys found directory bhard s ≡ some (r, t)
      → (i : ℕ) × (found ≡ some i) × (add_with sys i directory bhard s ≡ (r, t))
  unfolding add_found
  add_found-some none directory bhard s t r h = cc
  add_found-some (some i) directory bhard s t r h = (i, refl, cc)

  -- An AddProject that returns found an ID.
  pub add_project-some :
      (directory bhard : String) (s t : Quotas W) (r : Result (String × ℕ))
      → add_project sys directory bhard s ≡ some (r, t)
      → (i : ℕ) × (next_id 65536 1 (ids_of s.directories) ≡ some i)
        × (add_with sys i directory bhard s ≡ (r, t))
  unfolding add_project generate_id
  add_project-some directory bhard s t r =
      add_found-some (next_id 65536 1 (ids_of s.directories)) directory bhard s t r
