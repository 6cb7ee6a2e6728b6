-- ===== src/Xfs/Quotaer/Added.antt =====
-- What AddProject leaves: the directory with its new ID, or not at all.
use csi.Prelude.{
  ℕ, String, ◌<>◌, ◌^◌, ◌<◌, ◌≡◌, ◌≢◌, refl, sym, ap, ◌∙◌, subst, Option, none, some, List, arith,
}
use csi.Prelude.Decimal.{decimal}
use csi.Exec.{
  Exec, Result, ok, err, panicked, OsError, formatted, os_error, attempted, pure, ◌>>=◌, ◌>>◌,
}
use csi.State.Table.{upsert, erase}
use csi.Xfs.Ids.{next_id-IsFresh, IsFresh}
use csi.Xfs.Projects.{Project, directory_key, ids_of, to_text}
use csi.Xfs.Quotaer.{
  System, Quotas, dump, or_os_error, xfs_quota, update_quota, registered, add_with, add_project,
}
use csi.Xfs.Quotaer.Closed.{add_project-some}
use csi.Xfs.Quotaer.Limited.{
  erase-upsert_key, update_quota-calm, Keeps-added, quota_command, limited, update_quota-limited,
}

module _ {W : Type 0} (sys : System W) where
  after_attempt :
      {A : Type 0} (r : Result A) (n : Exec (Quotas W) (String × ℕ)) (u t : Quotas W)
      (q : Result (String × ℕ))
      → r ≢ panicked
      → (attempted r >>= λ _. n) u ≡ (q, t)
      → n u ≡ (q, t)
  after_attempt (ok a) n u t q calm h = h
  after_attempt (err e) n u t q calm h = h
  after_attempt panicked n u t q calm h = absurd (calm refl)

  -- The answer of a call that ends with a write.
  abbrev pub answer_of : String × ℕ → Option OsError → Result (String × ℕ)
  answer_of x none = ok x
  answer_of x (some e) = err (os_error e)

  -- From a world, the last call was a write of the projects file, of the map as it is, and the answer is that
  -- of this write.
  abbrev pub Ended : String × ℕ → W → Result (String × ℕ) → Quotas W → Type 0
  Ended x w r t =
      let (order, w') = sys.range t.directories w in
      let (e, w'') = sys.write_file sys.projects_file (to_text order) w' in
      (r ≡ answer_of x e) × (t.world ≡ w'')

  -- The text that AddProject returns.
  unfoldable pub block_of : Project → String
  block_of p = "\n" <> (decimal p.id <> (":" <> (p.directory <> (":" <> (p.bhard <> "\n")))))

  wrote-Ended :
      (x : String × ℕ) (e : Option OsError) (u t : Quotas W) (r : Result (String × ℕ))
      → (or_os_error sys e >> pure x) u ≡ (r, t)
      → (u ≡ t) × (r ≡ answer_of x e)
  unfolding or_os_error
  wrote-Ended x none u t r h = (cc, cc)
  wrote-Ended x (some e) u t r h = (cc, cc)

  dump-Ended :
      (x : String × ℕ) (u t : Quotas W) (r : Result (String × ℕ))
      → (dump sys >> pure x) u ≡ (r, t)
      → (u.directories ≡ t.directories) × Ended x u.world r t
  unfolding dump
  dump-Ended x u t r h =
      let (order, w) = sys.range u.directories u.world in
      let (e, w') = sys.write_file sys.projects_file (to_text order) w in
      let (same, answered) = wrote-Ended x e (record u { world = w' }) t r h in
      let kept : u.directories ≡ t.directories = ap (λ (s : Quotas W). s.directories) same in
      let written : t.world ≡ w' = ap (λ (s : Quotas W). s.world) (sym same) in
      (
        kept,
        subst
            (λ qs.
              let (order, w1) = sys.range qs u.world in
              let (e, w2) = sys.write_file sys.projects_file (to_text order) w1 in
              (r ≡ answer_of x e) × (t.world ≡ w2))
            kept (answered, written),
      )

  registered-Ended :
      (p : Project) (ps : List Project) (s t : Quotas W) (r : Result (String × ℕ))
      → s.directories ≡ upsert directory_key p ps
      → registered sys p.directory p.bhard p.id none s ≡ (r, t)
      → (t.directories ≡ upsert directory_key p ps)
        × Ended (block_of p, p.id) (limited sys p (upsert directory_key p ps) s.world) r t
  unfolding registered block_of
  registered-Ended p ps s t r added h =
      let (done, u) = update_quota sys p.directory p.bhard s in
      let kept : u.directories ≡ upsert directory_key p ps = (Keeps-added sys p ps).at s added in
      let (same, ended) =
        dump-Ended (block_of p, p.id) u t r
          (after_attempt done (dump sys >> pure (block_of p, p.id)) u t r
            (update_quota-calm sys p.directory p.bhard s) h) in
      (
        sym same ∙ kept,
        subst (λ w. Ended (block_of p, p.id) w r t) (update_quota-limited sys p ps s added) ended,
      )

  -- Whether the directory is a project, by what xfs_quota answers.
  abbrev pub Outcome :
      Project → Option OsError × W → List Project → Result (String × ℕ) → Quotas W → Type 0
  Outcome p (none, w) ps r t =
      (t.directories ≡ upsert directory_key p ps)
      × Ended (block_of p, p.id) (limited sys p (upsert directory_key p ps) w) r t
  Outcome p (some e, w) ps r t =
      (r ≡ err formatted) × (t.directories ≡ erase directory_key p.directory ps) × (t.world ≡ w)

  -- The call of xfs_quota that AddProject makes.
  abbrev pub project_command : Project → List String
  project_command p = quota_command sys ("project -s -p " <> (p.directory <> (" " <> decimal p.id)))

  add_call-Outcome :
      (p : Project) (e : Option OsError) (ps : List Project) (s t : Quotas W)
      (r : Result (String × ℕ))
      → s.directories ≡ upsert directory_key p ps
      → registered sys p.directory p.bhard p.id e s ≡ (r, t)
      → Outcome p (e, s.world) ps r t
  unfolding registered
  add_call-Outcome p none ps s t r added h = registered-Ended p ps s t r added h
  add_call-Outcome p (some e) ps s t r added h =
      let erased : erase directory_key p.directory s.directories ≡ t.directories =
        ap (λ (x : Result (String × ℕ) × Quotas W). x.1.directories) h in
      let world : s.world ≡ t.world = ap (λ (x : Result (String × ℕ) × Quotas W). x.1.world) h in
      (
        cc,
        sym erased ∙ (ap (erase directory_key p.directory) added ∙ erase-upsert_key p ps),
        sym world,
      )

  add_with-Outcome :
      (p : Project) (s t : Quotas W) (r : Result (String × ℕ))
      → add_with sys p.id p.directory p.bhard s ≡ (r, t)
      → Outcome p (sys.run (project_command p) s.world) s.directories r t
  unfolding add_with xfs_quota
  add_with-Outcome p s t r h =
      let (e, w) = sys.run (project_command p) s.world in
      add_call-Outcome p e s.directories
        (record { directories = upsert directory_key p s.directories; world = w }) t r refl h

  -- An AddProject that returns has chosen a uint16 that was neither in use nor reserved, and asked
  -- xfs_quota to set up the project. If that failed, the call fails, the directory is taken out of
  -- the map, also where it was in the map before, and the call does nothing more to the world. If
  -- not, the directory is in the map with that ID and the limit asked for. Then xfs_quota was
  -- asked to set the limit, and if it did a write of the projects file followed; whatever came of
  -- this, a write of the projects file from the map as it is came last, and the call answers the
  -- error of this write if there is one, else the text of the entry and the ID.
  pub add_project-Outcome :
      (directory bhard : String) (s t : Quotas W) (r : Result (String × ℕ))
      → add_project sys directory bhard s ≡ some (r, t)
      → (i : ℕ) × (i < 2 ^ 16)
        × IsFresh i (ids_of s.directories)
        × Outcome
            (record { directory = directory; id = i; bhard = bhard })
            (sys.run
              (project_command (record { directory = directory; id = i; bhard = bhard }))
              s.world)
            s.directories
            r
            t
  add_project-Outcome directory bhard s t r h =
      let (i, found, ended) = add_project-some sys directory bhard s t r h in
      let (range, fresh) = next_id-IsFresh 65536 1 i (ids_of s.directories) (omega arith) found in
      (
        i,
        range,
        fresh,
        add_with-Outcome (record { directory = directory; id = i; bhard = bhard }) s t r ended,
      )
