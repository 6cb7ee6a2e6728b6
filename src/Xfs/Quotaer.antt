-- ===== src/Xfs/Quotaer.antt =====
-- `xfsQuotaer` of pkg/xfs/quotaer.go.
pub mod Keeps
pub mod Closed
pub mod Invariant
pub mod Calls
pub mod Saved
pub mod Limited
pub mod Added
use csi.Prelude.{
  ℕ, String, ◌<>◌, Bool, true, false, not, ◌&&◌, Option, none, some, List, [], ◌∷◌, ◌⊎◌, inl, inr,
  ◌==◌, if◌then◌else◌,
}
use csi.Prelude.Decimal.{decimal}
use csi.Prelude.Cut.{contains}
use csi.Prelude.Split.{trim_space}
use csi.Exec.{
  Exec, Error, OsError, exist, not_exist, other, Result, ok, err, os_error, formatted, pure, raise,
  gets, fail_if, fail_with, attempt, ◌>>=◌, ◌>>◌,
}
use csi.State.Table.{find, upsert, erase}
use csi.Xfs.Ids.{generate_id}
use csi.Xfs.Projects.{Project, directory_key, ids_of, to_text, existing_ids}

-- An entry of the mount table.
pub record MountInfo : Type 0 where
  pub mountpoint : String
  pub fstype : String
  pub vfs_opts : String

-- What the quotaer calls: the operating system, its commands, the mount table, and the order in which Go
-- walks through the map.
pub record System (W : Type 0) : Type 0 where
  pub xfs_path : String
  pub projects_file : String
  pub clean_path : String
  pub stat : String → W → Option OsError × W
  pub run : List String → W → Option OsError × W
  pub output : List String → W → (OsError ⊎ String) × W
  pub get_mounts : W → (OsError ⊎ List MountInfo) × W
  pub look_path : String → W → Option OsError × W
  pub create_file : String → W → Option OsError × W
  pub read_file : String → W → (OsError ⊎ String) × W
  pub write_file : String → String → W → Option OsError × W
  pub range : List Project → W → List Project × W

-- The map `directories`, and the world.
pub record Quotas (W : Type 0) : Type 0 where
  pub directories : List Project
  pub world : W

module _ {W : Type 0} where
  -- A call into the system.
  abbrev pub call : {A : Type 0} → (W → A × W) → Exec (Quotas W) A
  call f s = let (a, w) = f s.world in (ok a, record s { world = w })

  -- `fmt.Errorf(…)` around the error of a call.
  abbrev pub wrapped : {A : Type 0} → (Error ⊎ A) → Exec (Quotas W) A
  wrapped (inl _) = raise formatted
  wrapped (inr a) = pure a

  abbrev pub change : (List Project → List Project) → Exec (Quotas W) (Unit {0})
  change f s = (ok tt, record s { directories = f s.directories })

module _ {W : Type 0} (sys : System W) where
  unfoldable pub or_os_error : Option OsError → Exec (Quotas W) (Unit {0})
  or_os_error none = pure tt
  or_os_error (some e) = raise (os_error e)

  -- `dump`
  unfoldable pub dump : Exec (Quotas W) (Unit {0})
  unfolding or_os_error
  dump = do
    projects ← gets (λ s. s.directories)
    order ← call (sys.range projects)
    e ← call (sys.write_file sys.projects_file (to_text order))
    or_os_error e

  xfs_quota : String → List String
  xfs_quota command = "xfs_quota" ∷ "-x" ∷ "-c" ∷ command ∷ sys.xfs_path ∷ []

  limit : String → Option Project → Exec (Quotas W) (Unit {0})
  unfolding xfs_quota
  limit bhard none = raise formatted
  limit bhard (some p) = do
    change (upsert directory_key (record p { bhard = bhard }))
    e ← call (sys.run (xfs_quota ("limit -p bhard=" <> (bhard <> (" " <> decimal p.id)))))
    fail_with e formatted
    dump

  -- `UpdateQuota`
  unfoldable pub update_quota : String → String → Exec (Quotas W) (Unit {0})
  unfolding limit
  update_quota directory bhard = do
    p ← gets (λ s. find directory_key directory s.directories)
    limit bhard p

  -- `RemoveProject`
  unfoldable pub remove_project : String → Exec (Quotas W) (Unit {0})
  remove_project directory = do change (erase directory_key directory); dump

  -- The rest of `AddProject` after the call of xfs_quota: if it failed, the directory goes. The error of
  -- `UpdateQuota` is dropped.
  registered : String → String → ℕ → Option OsError → Exec (Quotas W) (String × ℕ)
  registered directory bhard id (some _) = do
    change (erase directory_key directory)
    raise formatted
  registered directory bhard id none = do
    attempt (update_quota directory bhard)
    dump
    pure ("\n" <> (decimal id <> (":" <> (directory <> (":" <> (bhard <> "\n"))))), id)

  -- `AddProject`, with the ID
  unfoldable pub add_with : ℕ → String → String → Exec (Quotas W) (String × ℕ)
  unfolding registered xfs_quota
  add_with id directory bhard = do
    change (upsert directory_key (record { directory = directory; id = id; bhard = bhard }))
    e ← call (sys.run (xfs_quota ("project -s -p " <> (directory <> (" " <> decimal id)))))
    registered directory bhard id e

  add_found : Option ℕ → String → String → Quotas W → Option (Result (String × ℕ) × Quotas W)
  add_found none directory bhard s = none
  add_found (some id) directory bhard s = some (add_with id directory bhard s)

  -- `AddProject`. `none` is a call that never returns, since the search for an ID does not end.
  unfoldable pub add_project : String → String → Quotas W → Option (Result (String × ℕ) × Quotas W)
  unfolding add_found
  add_project directory bhard s =
      add_found (generate_id 65536 (ids_of s.directories)) directory bhard s

  restored : Project → Option OsError → Exec (Quotas W) (Unit {0})
  restored p (some not_exist) = do attempt (remove_project p.directory); pure tt
  restored p _ = do done ← attempt (update_quota p.directory p.bhard); wrapped done

  restore_loop : List Project → Exec (Quotas W) (Unit {0})
  unfolding restored
  restore_loop [] = pure tt
  restore_loop (p ∷ ps) = do e ← call (sys.stat p.directory); restored p e; restore_loop ps

  -- `restoreQuotas`
  unfoldable pub restore_quotas : Exec (Quotas W) (Unit {0})
  unfolding restore_loop
  restore_quotas = do
    projects ← gets (λ s. s.directories)
    order ← call (sys.range projects)
    restore_loop order
    dump

  -- `isXfs`
  unfoldable pub is_xfs : Exec (Quotas W) Bool
  is_xfs = do
    out ← call (sys.output ("stat" ∷ "-f" ∷ "-c" ∷ "%T" ∷ sys.xfs_path ∷ []))
    elim out [ inl e ↦ raise (os_error e) | inr text ↦ pure (trim_space text == "xfs") ]

  find_mount : List MountInfo → Exec (Quotas W) MountInfo
  find_mount [] = raise formatted
  find_mount (m ∷ ms) =
      if m.mountpoint == sys.clean_path && m.fstype == "xfs" then pure m else find_mount ms

  -- `getMountEntry`
  unfoldable pub get_mount_entry : Exec (Quotas W) MountInfo
  unfolding find_mount
  get_mount_entry = do
    mounts ← call sys.get_mounts
    elim mounts [ inl e ↦ raise (os_error e) | inr ms ↦ find_mount ms ]

  is_missing : Option OsError → Bool
  is_missing (some not_exist) = true
  is_missing _ = false

  read_projects : (OsError ⊎ String) → Exec (Quotas W) (Unit {0})
  read_projects (inl _) = pure tt
  read_projects (inr text) = do projects ← call (existing_ids sys.stat text); change (λ _. projects)

  -- The projects file is created, or read; an error of the reading is only logged.
  open_projects : Bool → Exec (Quotas W) (Unit {0})
  unfolding read_projects
  open_projects true = do e ← call (sys.create_file sys.projects_file); fail_with e formatted
  open_projects false = do text ← call (sys.read_file sys.projects_file); read_projects text

  -- `NewXfsQuotaer`, on an empty map
  unfoldable pub new_xfs_quotaer : Exec (Quotas W) (Unit {0})
  unfolding is_missing open_projects or_os_error
  new_xfs_quotaer = do
    e ← call (sys.stat sys.xfs_path)
    fail_if (is_missing e) formatted
    found ← attempt is_xfs
    xfs ← wrapped found
    fail_if (not xfs) formatted
    entry ← get_mount_entry
    fail_if (not (contains entry.vfs_opts "pquota") && not (contains entry.vfs_opts "prjquota"))
        formatted
    e' ← call (sys.look_path "xfs_quota")
    or_os_error e'
    e'' ← call (sys.stat sys.projects_file)
    open_projects (is_missing e'')
    done ← attempt restore_quotas
    wrapped done
