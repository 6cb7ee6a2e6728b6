-- ===== src/State/Table.antt =====
-- The loops that the getters, updaters and deleters of pkg/state/state.go share: a slice of entries
-- that is searched from the front by one of its fields.
use csi.Prelude.{
  String, ◌≡◌, refl, Option, none, some, List, [], ◌∷◌, ◌==◌, arith, All, if◌then◌else◌,
}

module _ {A : Type 0} (key : A → String) where
  -- `for _, x := range xs { if key(x) == k { return x, nil } }`
  unfoldable pub find : String → List A → Option A
  find k [] = none
  find k (x ∷ xs) = if key x == k then some x else find k xs

  -- `for i, x := range xs { if key(x) == key(update) { xs[i] = update; return } }; append`
  unfoldable pub upsert : A → List A → List A
  upsert u [] = u ∷ []
  upsert u (x ∷ xs) = if key x == key u then u ∷ xs else x ∷ upsert u xs

  -- `for i, x := range xs { if key(x) == k { xs = append(xs[:i], xs[i+1:]...); return } }`
  unfoldable pub erase : String → List A → List A
  erase k [] = []
  erase k (x ∷ xs) = if key x == k then xs else x ∷ erase k xs

  -- No two entries have one key.
  abbrev pub Distinct : List A → Type 0
  Distinct [] = Unit {0}
  Distinct (x ∷ xs) = (find (key x) xs ≡ none) × Distinct xs

  pub key-find : (k : String) (xs : List A) {a : A} → find k xs ≡ some a → key a ≡ k
  unfolding find
  key-find k [] h = ground arith
  key-find k (x ∷ xs) {a} h = ground (arith, key-find k xs {a = a})

  pub find-upsert :
      (k : String) (u : A) (xs : List A)
      → find k (upsert u xs) ≡ (if key u == k then some u else find k xs)
  unfolding find upsert
  find-upsert k u [] = refl
  find-upsert k u (x ∷ xs) = ground (arith, find-upsert k u xs)

  pub find-erase :
      (k j : String) (xs : List A)
      → Distinct xs
      → find k (erase j xs) ≡ (if j == k then none else find k xs)
  unfolding find erase
  find-erase k j [] d = ground arith
  find-erase k j (x ∷ xs) (fresh, d) = ground (arith, find-erase k j xs d)

  pub erase_absent : (k : String) (xs : List A) → find k xs ≡ none → erase k xs ≡ xs
  unfolding find erase
  erase_absent k [] h = refl
  erase_absent k (x ∷ xs) h = ground (arith, erase_absent k xs)

  -- An entry that was added under a new key is erased again without a trace.
  pub erase-upsert :
      (u : A) (xs : List A) → find (key u) xs ≡ none → erase (key u) (upsert u xs) ≡ xs
  unfolding find erase upsert
  erase-upsert u [] h = ground arith
  erase-upsert u (x ∷ xs) h = ground (arith, erase-upsert u xs)

  pub upsert-Distinct : (u : A) (xs : List A) → Distinct xs → Distinct (upsert u xs)
  unfolding find upsert
  upsert-Distinct u [] d = (refl, tt)
  upsert-Distinct u (x ∷ xs) (fresh, d) =
      ground (arith, upsert-Distinct u xs d, find-upsert (key x) u xs)

  pub erase-Distinct : (k : String) (xs : List A) → Distinct xs → Distinct (erase k xs)
  unfolding find erase
  erase-Distinct k [] d = tt
  erase-Distinct k (x ∷ xs) (fresh, d) =
      ground (arith, erase-Distinct k xs d, find-erase (key x) k xs d)

  module _ (P : A → Type 0) where
    pub upsert-All : (u : A) (xs : List A) → P u → All P xs → All P (upsert u xs)
    unfolding upsert
    upsert-All u [] h a = (h, tt)
    upsert-All u (x ∷ xs) h a = ground (arith, upsert-All u xs h a.1)

    pub erase-All : (k : String) (xs : List A) → All P xs → All P (erase k xs)
    unfolding erase
    erase-All k [] a = tt
    erase-All k (x ∷ xs) a = ground (arith, erase-All k xs a.1)

    pub find-All : (k : String) (xs : List A) {a : A} → All P xs → find k xs ≡ some a → P a
    unfolding find
    find-All k [] h e = ground arith
    find-All k (x ∷ xs) {a} h e = ground (arith, find-All k xs {a = a} h.1)
