-- ===== src/HostPath/Lifecycle/Lemmas.antt =====
-- Distinct names, and the number of attached volumes, under the changes that a step makes.
use csi.Prelude.{
  ℕ, suc, ◌+◌, ◌≤◌, String, ◌≡◌, ◌≢◌, refl, Bool, false, none, some, List, [], ◌∷◌, arith,
  if◌then◌else◌,
}
use csi.State.Types.{Volume}
use csi.State.Table.{find, upsert, erase, key-find, Distinct}
use csi.State.Store.{volume_key}
use csi.HostPath.Core.{count_attached}

module _ {A : Type 0} (key name : A → String) where
  find_other-upsert :
      (n : String) (u : A) (xs : List A)
      → find name n xs ≡ none
      → name u ≢ n
      → find name n (upsert key u xs) ≡ none
  unfolding find upsert
  find_other-upsert n u [] h ne = ground arith
  find_other-upsert n u (x ∷ xs) h ne = ground (arith, find_other-upsert n u xs)

  pub find_other-erase :
      (n k : String) (xs : List A) → find name n xs ≡ none → find name n (erase key k xs) ≡ none
  unfolding find erase
  find_other-erase n k [] h = refl
  find_other-erase n k (x ∷ xs) h = ground (arith, find_other-erase n k xs)

  -- Names stay distinct where the new entry's name is not that of another entry.
  pub upsert-Distinct_other :
      (u : A) (xs : List A)
      → find name (name u) (erase key (key u) xs) ≡ none
      → Distinct name xs
      → Distinct name (upsert key u xs)
  unfolding find upsert erase
  upsert-Distinct_other u [] h d = (refl, tt)
  upsert-Distinct_other u (x ∷ xs) h (fresh, d) =
      ground (arith, upsert-Distinct_other u xs, find_other-upsert (name x) u xs)

  pub erase-Distinct_other :
      (k : String) (xs : List A) → Distinct name xs → Distinct name (erase key k xs)
  unfolding erase
  erase-Distinct_other k [] d = tt
  erase-Distinct_other k (x ∷ xs) (fresh, d) =
      ground (arith, erase-Distinct_other k xs d, find_other-erase (name x) k xs fresh)

  find_of_find :
      (k : String) (v : A) (xs : List A) → find key k xs ≡ some v → find name (name v) xs ≢ none
  unfolding find
  find_of_find k v [] h e = ground arith
  find_of_find k v (x ∷ xs) h e = ground (arith, find_of_find k v xs)

  -- The one entry under a key is the one with its name.
  find_own-erase :
      (k : String) (v : A) (xs : List A)
      → find key k xs ≡ some v
      → Distinct name xs
      → find name (name v) (erase key k xs) ≡ none
  unfolding find erase
  find_own-erase k v [] h d = ground arith
  find_own-erase k v (x ∷ xs) h (fresh, d) =
      ground (arith, find_own-erase k v xs, find_of_find k v xs)

  -- To write an entry that was found, changed or not but under its key and its name.
  pub rewrite-Distinct_other :
      (k : String) (v u : A) (xs : List A)
      → find key k xs ≡ some v
      → key u ≡ key v
      → name u ≡ name v
      → Distinct name xs
      → Distinct name (upsert key u xs)
  rewrite-Distinct_other k v u xs h e f d =
      upsert-Distinct_other u xs (rw (f, e, key-find key k xs h) (find_own-erase k v xs h d)) d

abbrev pub one_if : Bool → ℕ
one_if b = if b then 1 else 0

count_attached-acc : (vs : List Volume) (n : ℕ) → count_attached vs n ≡ n + count_attached vs 0
unfolding count_attached
count_attached-acc [] n = omega arith
count_attached-acc (v ∷ vs) n =
    ground (arith, count_attached-acc vs n, count_attached-acc vs (suc n), count_attached-acc vs 1)

pub count_attached-upsert_found :
    (u v : Volume) (vs : List Volume)
    → find volume_key u.vol_id vs ≡ some v
    → count_attached (upsert volume_key u vs) 0 + one_if v.attached
      ≡ count_attached vs 0 + one_if u.attached
unfolding count_attached find upsert
count_attached-upsert_found u v [] h = ground arith
count_attached-upsert_found u v (x ∷ vs) h = ground (
  arith,
  count_attached-upsert_found u v vs,
  count_attached-acc vs 1,
  count_attached-acc (upsert volume_key u vs) 1,
)

pub count_attached-upsert_off :
    (u : Volume) (vs : List Volume)
    → u.attached ≡ false
    → count_attached (upsert volume_key u vs) 0 ≤ count_attached vs 0
unfolding count_attached upsert
count_attached-upsert_off u [] h = ground arith
count_attached-upsert_off u (x ∷ vs) h = ground (
  arith,
  count_attached-upsert_off u vs,
  count_attached-acc vs 1,
  count_attached-acc (upsert volume_key u vs) 1,
)

pub count_attached-erase :
    (k : String) (vs : List Volume) → count_attached (erase volume_key k vs) 0 ≤ count_attached vs 0
unfolding count_attached erase
count_attached-erase k [] = omega arith
count_attached-erase k (x ∷ vs) = ground (
  arith,
  count_attached-erase k vs,
  count_attached-acc vs 1,
  count_attached-acc (erase volume_key k vs) 1,
)
