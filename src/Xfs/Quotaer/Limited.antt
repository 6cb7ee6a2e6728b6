-- ===== src/Xfs/Quotaer/Limited.antt =====
-- `UpdateQuota` of pkg/xfs/quotaer.go, on a project that AddProject has just entered.
use csi.Prelude.{
  String, ◌<>◌, ◌≡◌, ◌≢◌, refl, sym, ap, ◌∙◌, Option, none, some, List, [], ◌∷◌, arith,
}
use csi.Prelude.Decimal.{decimal}
use csi.Exec.{panicked, OsError, formatted, fail_with, ◌>>◌}
use csi.State.Table.{find, upsert, erase}
use csi.Xfs.Projects.{Project, directory_key, to_text}
use csi.Xfs.Quotaer.{System, Quotas, dump, or_os_error, xfs_quota, limit, update_quota}
use csi.Xfs.Quotaer.Keeps.{Keeps, Keeps-update_quota}

upsert-upsert :
    (p : Project) (ps : List Project)
    → upsert directory_key p (upsert directory_key p ps) ≡ upsert directory_key p ps
unfolding upsert
upsert-upsert p [] = ground arith
upsert-upsert p (q ∷ ps) = ground (arith, upsert-upsert p ps)

pub erase-upsert_key :
    (p : Project) (ps : List Project)
    → erase directory_key p.directory (upsert directory_key p ps)
      ≡ erase directory_key p.directory ps
unfolding upsert erase
erase-upsert_key p [] = ground arith
erase-upsert_key p (q ∷ ps) = ground (arith, erase-upsert_key p ps)

find-upsert_key :
    (p : Project) (ps : List Project)
    → find directory_key p.directory (upsert directory_key p ps) ≡ some p
unfolding upsert find
find-upsert_key p [] = ground arith
find-upsert_key p (q ∷ ps) = ground (arith, find-upsert_key p ps)

module _ {W : Type 0} (sys : System W) where
  or_os_error-calm : (e : Option OsError) (s : Quotas W) → (or_os_error sys e s).0 ≢ panicked
  unfolding or_os_error
  or_os_error-calm none s h = cc
  or_os_error-calm (some e) s h = cc

  dump-calm : (s : Quotas W) → (dump sys s).0 ≢ panicked
  unfolding dump
  dump-calm s =
      let (order, w) = sys.range s.directories s.world in
      let (e, w') = sys.write_file sys.projects_file (to_text order) w in
      or_os_error-calm e (record s { world = w' })

  fail_with-calm :
      (e : Option OsError) (s : Quotas W) → (((fail_with e formatted) >> dump sys) s).0 ≢ panicked
  fail_with-calm none s h = dump-calm s h
  fail_with-calm (some e) s h = cc

  limit-calm :
      (bhard : String) (found : Option Project) (s : Quotas W)
      → (limit sys bhard found s).0 ≢ panicked
  unfolding limit
  limit-calm bhard none s h = cc
  limit-calm bhard (some p) s h =
      let u : Quotas W = record s {
        directories = upsert directory_key (record p { bhard = bhard }) s.directories;
      } in
      let command = xfs_quota sys ("limit -p bhard=" <> (bhard <> (" " <> decimal p.id))) in
      let (e, w) = sys.run command u.world in fail_with-calm e (record u { world = w }) h

  pub update_quota-calm :
      (directory bhard : String) (s : Quotas W) → (update_quota sys directory bhard s).0 ≢ panicked
  unfolding update_quota
  update_quota-calm directory bhard s =
      limit-calm bhard (find directory_key directory s.directories) s

  -- The map after AddProject, where xfs_quota succeeded, whatever UpdateQuota does.
  pub Keeps-added :
      (p : Project) (ps : List Project)
      → Keeps (λ qs. qs ≡ upsert directory_key p ps) (update_quota sys p.directory p.bhard)
  Keeps-added p ps =
      let P : List Project → Type 0 = λ qs. qs ≡ upsert directory_key p ps in
      (Keeps-update_quota P sys p.directory p.bhard λ q qs h same.
        let found : some q ≡ some p =
          sym h ∙ (ap (find directory_key p.directory) same ∙ find-upsert_key p ps) in
        let one : q ≡ p = cc in
        let again : record q { bhard = p.bhard } ≡ p =
          ap (λ (o : Project). record o { bhard = p.bhard }) one in
        ap (λ o. upsert directory_key o qs) again
        ∙ (ap (upsert directory_key p) same ∙ upsert-upsert p ps))

  -- A command of xfs_quota, and what becomes of the world while UpdateQuota tries to set the limit of a
  -- project of the map: if the command succeeds, the projects file is written.
  abbrev pub quota_command : String → List String
  quota_command text = "xfs_quota" ∷ "-x" ∷ "-c" ∷ text ∷ sys.xfs_path ∷ []

  abbrev pub limited : Project → List Project → W → W
  limited p ps w =
      let command = quota_command ("limit -p bhard=" <> (p.bhard <> (" " <> decimal p.id))) in
      let (e, w') = sys.run command w in
      let (order, w'') = sys.range ps w' in
      elim e [ none ↦ (sys.write_file sys.projects_file (to_text order) w'').1 | some _ ↦ w' ]

  or_os_error-world : (e : Option OsError) (u : Quotas W) → (or_os_error sys e u).1 ≡ u
  unfolding or_os_error
  or_os_error-world none u = refl
  or_os_error-world (some e) u = refl

  fail_with-world :
      (e : Option OsError) (u : Quotas W)
      → ((fail_with e formatted >> dump sys) u).1.world ≡ elim e [
        | none ↦
            (sys.write_file sys.projects_file
              (to_text (sys.range u.directories u.world).0)
              (sys.range u.directories u.world).1).1
        | some _ ↦ u.world
      ]
  unfolding dump
  fail_with-world none u =
      let (order, w) = sys.range u.directories u.world in
      let (e, w') = sys.write_file sys.projects_file (to_text order) w in
      ap (λ (s : Quotas W). s.world) (or_os_error-world e (record u { world = w' }))
  fail_with-world (some e) u = refl

  limit-limited :
      (p : Project) (ps : List Project) (s : Quotas W)
      → upsert directory_key p s.directories ≡ ps
      → (limit sys p.bhard (some p) s).1.world ≡ limited p ps s.world
  unfolding limit xfs_quota
  limit-limited p ps s same =
      let command = quota_command ("limit -p bhard=" <> (p.bhard <> (" " <> decimal p.id))) in
      let (e, w) = sys.run command s.world in
      fail_with-world e (record s { directories = upsert directory_key p s.directories; world = w })
      ∙ ap
          (λ (qs : List Project). elim e [
            | none ↦
                (sys.write_file sys.projects_file (to_text (sys.range qs w).0) (sys.range qs w).1).1
            | some _ ↦ w
          ])
          same

  pub update_quota-limited :
      (p : Project) (ps : List Project) (s : Quotas W)
      → s.directories ≡ upsert directory_key p ps
      → (update_quota sys p.directory p.bhard s).1.world
        ≡ limited p (upsert directory_key p ps) s.world
  unfolding update_quota
  update_quota-limited p ps s added =
      let found : find directory_key p.directory s.directories ≡ some p =
        ap (find directory_key p.directory) added ∙ find-upsert_key p ps in
      ap (λ o. (limit sys p.bhard o s).1.world) found
      ∙ limit-limited p (upsert directory_key p ps) s
          (ap (upsert directory_key p) added ∙ upsert-upsert p ps)
