-- ===== src/Xfs/Quotaer/Saved.antt =====
-- What the calls of the quotaer leave when they succeed: the projects file written from the map, and the map
-- of the call.
use csi.Prelude.{String, ◌<>◌, ◌≡◌, refl, sym, ap, subst, Option, none, some}
use csi.Prelude.Decimal.{decimal}
use csi.Exec.{Exec, ok, OsError, formatted, fail_with, continue-ok, ◌>>◌}
use csi.State.Table.{find, upsert, erase}
use csi.Xfs.Projects.{Project, directory_key, to_text}
use csi.Xfs.Quotaer.{
  System, Quotas, dump, or_os_error, xfs_quota, limit, update_quota, remove_project, restore_loop,
  restore_quotas,
}

module _ {W : Type 0} (sys : System W) where
  -- The last call of the world was the successful write of the projects file, of the map as it is.
  abbrev pub Saved : Quotas W → Type 0
  Saved t =
      (w : W) × ((sys.write_file sys.projects_file (to_text (sys.range t.directories w).0)
          (sys.range t.directories w).1)
        ≡ (none, t.world))

  or_os_error-ok :
      (e : Option OsError) (s t : Quotas W)
      → or_os_error sys e s ≡ (ok tt, t)
      → (e ≡ none) × (s ≡ t)
  unfolding or_os_error
  or_os_error-ok none s t h = (refl, cc)
  or_os_error-ok (some e) s t h = cc

  pub dump-Saved :
      (s t : Quotas W) → dump sys s ≡ (ok tt, t) → (s.directories ≡ t.directories) × Saved t
  unfolding dump
  dump-Saved s t h =
      let (order, w) = sys.range s.directories s.world in
      let (e, w') = sys.write_file sys.projects_file (to_text order) w in
      let (written, same) = or_os_error-ok e (record s { world = w' }) t h in
      let kept : s.directories ≡ t.directories = ap (λ (x : Quotas W). x.directories) same in
      let world : w' ≡ t.world = ap (λ (x : Quotas W). x.world) same in
      (kept, subst Saved same (s.world, ap (λ (x : Option OsError). (x, w')) written))

  pub remove_project-Saved :
      (directory : String) (s t : Quotas W)
      → remove_project sys directory s ≡ (ok tt, t)
      → (t.directories ≡ erase directory_key directory s.directories) × Saved t
  unfolding remove_project
  remove_project-Saved directory s t h =
      let (kept, saved) =
        dump-Saved (record s { directories = erase directory_key directory s.directories }) t h in
      (sym kept, saved)

  fail_with-ok :
      {A : Type 0} (e : Option OsError) (m : Exec (Quotas W) A) (s t : Quotas W) (a : A)
      → (fail_with e formatted >> m) s ≡ (ok a, t)
      → m s ≡ (ok a, t)
  fail_with-ok none m s t a h = h
  fail_with-ok (some e) m s t a h = cc

  limit-Saved :
      (bhard : String) (found : Option Project) (s t : Quotas W)
      → limit sys bhard found s ≡ (ok tt, t)
      → (p : Project) × (found ≡ some p)
        × (t.directories ≡ upsert directory_key (record p { bhard = bhard }) s.directories)
        × Saved t
  unfolding limit
  limit-Saved bhard none s t h = cc
  limit-Saved bhard (some p) s t h =
      let command = xfs_quota sys ("limit -p bhard=" <> (bhard <> (" " <> decimal p.id))) in
      let u : Quotas W = record {
        directories = upsert directory_key (record p { bhard = bhard }) s.directories;
        world = (sys.run command s.world).1;
      } in
      let (kept, saved) =
        dump-Saved u t (fail_with-ok (sys.run command s.world).0 (dump sys) u t tt h) in
      (p, refl, sym kept, saved)

  -- An UpdateQuota that succeeds found the directory in the map, changed the limit of that project
  -- and nothing else there, and ended by writing the projects file from the map as it is.
  pub update_quota-Saved :
      (directory bhard : String) (s t : Quotas W)
      → update_quota sys directory bhard s ≡ (ok tt, t)
      → (p : Project) × (find directory_key directory s.directories ≡ some p)
        × (t.directories ≡ upsert directory_key (record p { bhard = bhard }) s.directories)
        × Saved t
  unfolding update_quota
  update_quota-Saved directory bhard s t h =
      limit-Saved bhard (find directory_key directory s.directories) s t h

  pub restore_quotas-Saved : (s t : Quotas W) → restore_quotas sys s ≡ (ok tt, t) → Saved t
  unfolding restore_quotas
  restore_quotas-Saved s t h =
      let (order, w) = sys.range s.directories s.world in
      let (r, u) = restore_loop sys order (record s { world = w }) in
      let (a, done, h') = continue-ok r (λ _. dump sys) u t tt h in (dump-Saved u t h').1
