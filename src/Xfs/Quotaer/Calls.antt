-- ===== src/Xfs/Quotaer/Calls.antt =====
-- Sequences of calls of one quotaer: the projects stay valid, and the calls return.
use csi.Prelude.{
  ℕ, ◌+◌, ◌^◌, ◌≤◌, ◌<◌, String, ◌≡◌, refl, sym, subst, ap, ◌∙◌, inl, inr, Option, none, some, List,
  [], ◌∷◌, length, arith, Option-cases,
}
use csi.Exec.{Exec, Result}
use csi.State.Table.{find, upsert, erase, key-find}
use csi.Xfs.Ids.Free.{generate_id-ends}
use csi.Xfs.Projects.{Project, directory_key, ids_of}
use csi.Xfs.Quotaer.{
  System, Quotas, update_quota, remove_project, add_with, add_found, add_project, restore_quotas,
}
use csi.Xfs.Quotaer.Keeps.{Keeps}
use csi.Xfs.Quotaer.Closed.{
  IsClosed, Keeps-add_with, Keeps-update, Keeps-remove_project, Keeps-restore_quotas,
}
use csi.Xfs.Quotaer.Invariant.{IsValid, IsValid-IsClosed, add_project-IsValid}

-- A call of a quotaer.
pub data Call : Type 0 where
  add update : String → String → Call
  remove : String → Call
  restore : Call

module _ {W : Type 0} (sys : System W) where
  left : {A : Type 0} → Option (Result A × Quotas W) → Option (Quotas W)
  left none = none
  left (some (r, t)) = some t

  run_call : Call → Quotas W → Option (Quotas W)
  unfolding left
  run_call (add directory bhard) s = left (add_project sys directory bhard s)
  run_call (update directory bhard) s = some (update_quota sys directory bhard s).1
  run_call (remove directory) s = some (remove_project sys directory s).1
  run_call restore s = some (restore_quotas sys s).1

  continue_calls : (Quotas W → Option (Quotas W)) → Option (Quotas W) → Option (Quotas W)
  continue_calls run none = none
  continue_calls run (some s) = run s

  -- What a sequence of calls leaves, or none, if a call does not return.
  unfoldable pub run_calls : List Call → Quotas W → Option (Quotas W)
  unfolding run_call continue_calls
  run_calls [] s = some s
  run_calls (c ∷ cs) s = continue_calls (run_calls cs) (run_call c s)

  left-some :
      {A : Type 0} (o : Option (Result A × Quotas W)) (t : Quotas W)
      → left o ≡ some t
      → (r : Result A) × (o ≡ some (r, t))
  unfolding left
  left-some none t h = cc
  left-some (some (r, u)) t h = (r, cc)

  kept :
      {A : Type 0} (P : List Project → Type 0) (m : Exec (Quotas W) A) (s t : Quotas W)
      → Keeps P m
      → P s.directories
      → some (m s).1 ≡ some t
      → P t.directories
  kept P m s t keeps v h =
      let ended : (m s).1 ≡ t = cc in subst (λ (x : Quotas W). P x.directories) ended (keeps.at s v)

  run_call-IsValid :
      (c : Call) (s t : Quotas W)
      → IsValid s.directories
      → run_call c s ≡ some t
      → IsValid t.directories
  unfolding run_call
  run_call-IsValid (add directory bhard) s t v h =
      let (r, ended) = left-some (add_project sys directory bhard s) t h in
      add_project-IsValid sys directory bhard s t r v ended
  run_call-IsValid (update directory bhard) s t v h =
      kept IsValid (update_quota sys directory bhard) s t
        (Keeps-update IsValid IsValid-IsClosed sys directory bhard) v h
  run_call-IsValid (remove directory) s t v h =
      kept IsValid (remove_project sys directory) s t
        (Keeps-remove_project IsValid IsValid-IsClosed sys directory) v h
  run_call-IsValid restore s t v h =
      kept IsValid (restore_quotas sys) s t (Keeps-restore_quotas IsValid IsValid-IsClosed sys) v h

  -- A sequence of calls of AddProject, UpdateQuota, RemoveProject and restoreQuotas that all
  -- return, whatever the system answers, keeps the projects valid if they were: no directory and
  -- no ID is given twice, every ID is a uint16, and none is the reserved one.
  pub run_calls-IsValid :
      (cs : List Call) (s t : Quotas W)
      → IsValid s.directories
      → run_calls cs s ≡ some t
      → IsValid t.directories
  unfolding run_calls continue_calls
  run_calls-IsValid [] s t v h =
      let ended : s ≡ t = cc in subst (λ (x : Quotas W). IsValid x.directories) ended v
  run_calls-IsValid (c ∷ cs) s t v h = elim (Option-cases (run_call c s)) [
    | inl stuck ↦ cc
    | inr (u, ended) ↦
        run_calls-IsValid cs u t (run_call-IsValid c s u v ended)
          (ap (continue_calls (run_calls cs)) (sym ended) ∙ h)
  ]

-- At most so many projects.
abbrev Few : ℕ → List Project → Type 0
Few n ps = length ps ≤ n

length-ids_of : (ps : List Project) → length (ids_of ps) ≡ length ps
unfolding ids_of
length-ids_of [] = refl
length-ids_of (p ∷ ps) = ground (arith, length-ids_of ps)

length-upsert :
    (p : Project) (ps : List Project) → length (upsert directory_key p ps) ≤ length ps + 1
unfolding upsert
length-upsert p [] = omega arith
length-upsert p (q ∷ ps) = ground (arith, length-upsert p ps)

length-upsert_found :
    (k : String) (p q : Project) (ps : List Project)
    → find directory_key k ps ≡ some p
    → q.directory ≡ p.directory
    → length (upsert directory_key q ps) ≡ length ps
unfolding find upsert
length-upsert_found k p q [] h e = cc
length-upsert_found k p q (x ∷ ps) h e =
    ground (arith, length-upsert_found k p q ps, key-find directory_key k ps {a = p})

length-erase : (k : String) (ps : List Project) → length (erase directory_key k ps) ≤ length ps
unfolding erase
length-erase k [] = omega arith
length-erase k (q ∷ ps) = ground (arith, length-erase k ps)

Few-IsClosed : (n : ℕ) → IsClosed (Few n)
Few-IsClosed n = record {
  written = λ k p bhard ps h few.
      let same = length-upsert_found k p (record p { bhard = bhard }) ps h refl in omega arith;
  erased = λ k ps few. let less = length-erase k ps in omega arith;
}

module _ {W : Type 0} (sys : System W) where
  returned :
      {A : Type 0} (m : Exec (Quotas W) A) (s : Quotas W)
      → ((n : ℕ) → Keeps (Few n) m)
      → (t : Quotas W) × (some (m s).1 ≡ some t) × (length t.directories ≤ length s.directories + 1)
  returned m s keeps =
      let fewer = (keeps (length s.directories)).at s (omega arith) in ((m s).1, refl, omega arith)

  -- Each call returns and adds at most one project.
  run_call-returns :
      (c : Call) (s : Quotas W)
      → length s.directories + 2 < 2 ^ 16
      → (t : Quotas W) × (run_call sys c s ≡ some t)
        × (length t.directories ≤ length s.directories + 1)
  unfolding run_call add_project add_found left
  run_call-returns (add directory bhard) s few =
      let same = length-ids_of s.directories in
      let (i, found, low, high, fresh) = generate_id-ends (ids_of s.directories) (omega arith) in
      let p : Project = record { directory = directory; id = i; bhard = bhard } in
      let n = length s.directories + 1 in
      (
        (add_with sys i directory bhard s).1,
        rw found refl,
        Keeps-add_with (Few n) (Few-IsClosed n) sys i directory bhard s
            (length-upsert p s.directories),
      )
  run_call-returns (update directory bhard) s few =
      returned (update_quota sys directory bhard) s
        λ n. Keeps-update (Few n) (Few-IsClosed n) sys directory bhard
  run_call-returns (remove directory) s few =
      returned (remove_project sys directory) s
        λ n. Keeps-remove_project (Few n) (Few-IsClosed n) sys directory
  run_call-returns restore s few =
      returned (restore_quotas sys) s λ n. Keeps-restore_quotas (Few n) (Few-IsClosed n) sys

  -- As long as the projects and the calls together are fewer than 65534, every call of a sequence
  -- returns, and it leaves at most one more project for each call.
  pub run_calls-returns :
      (cs : List Call) (s : Quotas W)
      → length s.directories + length cs + 2 < 2 ^ 16
      → (t : Quotas W) × (run_calls sys cs s ≡ some t)
        × (length t.directories ≤ length s.directories + length cs)
  unfolding run_calls continue_calls
  run_calls-returns [] s few = (s, refl, omega arith)
  run_calls-returns (c ∷ cs) s few =
      let (u, ended, less) = run_call-returns c s (omega arith) in
      let (t, ended', less') = run_calls-returns cs u (omega arith) in
      (t, rw ended ended', omega arith)
