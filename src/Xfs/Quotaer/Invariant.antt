-- ===== src/Xfs/Quotaer/Invariant.antt =====
-- The projects of the quotaer have IDs of their own.
use csi.Prelude.{
  ℕ, ◌^◌, ◌<◌, String, ◌≡◌, ◌≢◌, refl, sym, subst, false, some, List, [], ◌∷◌, All, arith,
}
use csi.Exec.{Result}
use csi.State.Table.{
  find, upsert, erase, key-find, find-All, Distinct, upsert-Distinct, erase-Distinct, upsert-All,
  erase-All,
}
use csi.Xfs.Ids.{in_use, next_id-IsFresh, reserved_export_id}
use csi.Xfs.Projects.{Project, directory_key, ids_of}
use csi.Xfs.Quotaer.{System, Quotas, add_project}
use csi.Xfs.Quotaer.Closed.{IsClosed, Keeps-add_with, add_project-some}

-- No ID is given to two projects.
abbrev pub DistinctIds : List ℕ → Type 0
DistinctIds [] = Unit {0}
DistinctIds (i ∷ is) = (in_use i is ≡ false) × DistinctIds is

abbrev pub IsGood : Project → Type 0
IsGood p = (p.id < 2 ^ 16) × (p.id ≢ reserved_export_id)

pub record IsValid (ps : List Project) : Type 0 where
  pub directories : Distinct directory_key ps
  pub ids : DistinctIds (ids_of ps)
  pub good : All IsGood ps

in_use-upsert :
    (p : Project) (ps : List Project) (i : ℕ)
    → in_use i (ids_of ps) ≡ false
    → p.id ≢ i
    → in_use i (ids_of (upsert directory_key p ps)) ≡ false
unfolding in_use ids_of upsert
in_use-upsert p [] i h ne = ground arith
in_use-upsert p (q ∷ ps) i h ne = ground (arith, in_use-upsert p ps i)

DistinctIds-upsert :
    (p : Project) (ps : List Project)
    → in_use p.id (ids_of ps) ≡ false
    → DistinctIds (ids_of ps)
    → DistinctIds (ids_of (upsert directory_key p ps))
unfolding in_use ids_of upsert
DistinctIds-upsert p [] h d = (refl, tt)
DistinctIds-upsert p (q ∷ ps) h d = ground (arith, DistinctIds-upsert p ps, in_use-upsert p ps q.id)

-- To write a project that is there, under the ID that it has.
ids_of-upsert :
    (k : String) (p q : Project) (ps : List Project)
    → find directory_key k ps ≡ some p
    → q.directory ≡ p.directory
    → q.id ≡ p.id
    → ids_of (upsert directory_key q ps) ≡ ids_of ps
unfolding ids_of find upsert
ids_of-upsert k p q [] h e f = ground arith
ids_of-upsert k p q (x ∷ ps) h e f =
    ground (arith, ids_of-upsert k p q ps, key-find directory_key k ps {a = p})

in_use-erase :
    (k : String) (ps : List Project) (i : ℕ)
    → in_use i (ids_of ps) ≡ false
    → in_use i (ids_of (erase directory_key k ps)) ≡ false
unfolding in_use ids_of erase
in_use-erase k [] i h = refl
in_use-erase k (q ∷ ps) i h = ground (arith, in_use-erase k ps i)

DistinctIds-erase :
    (k : String) (ps : List Project)
    → DistinctIds (ids_of ps)
    → DistinctIds (ids_of (erase directory_key k ps))
unfolding ids_of erase
DistinctIds-erase k [] d = tt
DistinctIds-erase k (q ∷ ps) d = ground (arith, DistinctIds-erase k ps, in_use-erase k ps q.id)

upsert_fresh-IsValid :
    (p : Project) (ps : List Project)
    → IsGood p
    → in_use p.id (ids_of ps) ≡ false
    → IsValid ps
    → IsValid (upsert directory_key p ps)
upsert_fresh-IsValid p ps good fresh v = record {
  directories = upsert-Distinct directory_key p ps v.directories;
  ids = DistinctIds-upsert p ps fresh v.ids;
  good = upsert-All directory_key IsGood p ps good v.good;
}

upsert_found-IsValid :
    (k : String) (p : Project) (bhard : String) (ps : List Project)
    → find directory_key k ps ≡ some p
    → IsValid ps
    → IsValid (upsert directory_key (record p { bhard = bhard }) ps)
upsert_found-IsValid k p bhard ps h v =
    let q = record p { bhard = bhard } in
    record {
      directories = upsert-Distinct directory_key q ps v.directories;
      ids = subst DistinctIds (sym (ids_of-upsert k p q ps h refl refl)) v.ids;
      good =
          upsert-All directory_key IsGood q ps (find-All directory_key IsGood k ps v.good h) v.good;
    }

erase-IsValid : (k : String) (ps : List Project) → IsValid ps → IsValid (erase directory_key k ps)
erase-IsValid k ps v = record {
  directories = erase-Distinct directory_key k ps v.directories;
  ids = DistinctIds-erase k ps v.ids;
  good = erase-All directory_key IsGood k ps v.good;
}

pub IsValid-IsClosed : IsClosed IsValid
IsValid-IsClosed = record { written = upsert_found-IsValid; erased = erase-IsValid }

-- An AddProject that returns, whatever the system answers.
pub add_project-IsValid :
    {W : Type 0} (sys : System W) (directory bhard : String) (s t : Quotas W)
    (r : Result (String × ℕ))
    → IsValid s.directories
    → add_project sys directory bhard s ≡ some (r, t)
    → IsValid t.directories
add_project-IsValid {W = W} sys directory bhard s t r v h =
    let (i, found, ended) = add_project-some sys directory bhard s t r h in
    let (range, fresh) = next_id-IsFresh 65536 1 i (ids_of s.directories) (omega arith) found in
    let p : Project = record { directory = directory; id = i; bhard = bhard } in
    subst (λ (x : Result (String × ℕ) × Quotas W). IsValid x.1.directories) ended
      (Keeps-add_with IsValid IsValid-IsClosed sys i directory bhard s
        (upsert_fresh-IsValid p s.directories (range, fresh.1) fresh.0 v))
