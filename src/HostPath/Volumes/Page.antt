-- ===== src/HostPath/Volumes/Page.antt =====
-- What a page of `ListVolumes` holds, and what `ControllerGetVolume` answers.
use csi.Prelude.{
  ℕ, zero, suc, ◌+◌, ◌-◌, ◌≤◌, String, ◌≡◌, refl, sym, ap, ◌∙◌, true, some, List, [], ◌∷◌, inl, inr,
  length, get_elem?, drop-suc, has_elem, take, drop, map, arith, leb, ltb, ◌||◌, Bool-cases,
}
use csi.Prelude.Int.{ℤ, pos, negsuc, ◌+ℤ◌, ◌-ℤ◌, leb_ℤ}
use csi.Prelude.Sort.{sort, length-sort}
use csi.Exec.{◌>>=◌, Result, ok, panicked, bind-ok, pure}
use csi.State.Types.{Volume}
use csi.State.Store.{Store, volume_key, get_volumes}
use csi.HostPath.Env.{Env}
use csi.HostPath.Health.{do_health_check_in_controller_side}
use csi.HostPath.Health.Quiet.{controller_side-Answers}
use csi.HostPath.Volumes.{
  VolumeEntry, ListVolumesRequest, entry_of, starting_index, max_length, rounds, or_panic,
  volume_at, list_entries, list_from, list_volumes,
}

-- What an entry says of the volume itself, and the same of a stored volume.
abbrev pub shown : VolumeEntry → String × ℤ × List String
shown e = (e.volume_id, e.capacity_bytes, e.published_node_ids)

abbrev pub listed : Volume → String × ℤ × List String
listed v = (v.vol_id, v.vol_size, v.node_id ∷ [])

-- The part of a list that a maximum number of entries lets through: all of it where the maximum is not
-- positive.
abbrev pub first : {A : Type 0} → ℤ → List A → List A
first (pos zero) xs = xs
first (pos (suc m)) xs = take (suc m) xs
first (negsuc m) xs = xs

take_all : {A : Type 0} (n : ℕ) (xs : List A) → length xs ≤ n → take n xs ≡ xs
take_all zero [] h = refl
take_all zero (x ∷ xs) h = absurd (omega arith)
take_all (suc n) [] h = refl
take_all (suc n) (x ∷ xs) h = ap (λ ys. x ∷ ys) (take_all n xs (omega arith))

pos-suc : (j : ℕ) → pos j +ℤ pos 1 ≡ pos (suc j)
unfolding ◌+ℤ◌
pos-suc j = ground arith

take_none : {A : Type 0} (n : ℕ) → take {A = A} n [] ≡ []
take_none zero = refl
take_none (suc n) = refl

take-drop : {A : Type 0} (k i : ℕ) (xs : List A) → take (k - i) (drop i xs) ≡ drop i (take k xs)
take-drop k zero xs = ap (λ n. take n xs) (omega arith)
take-drop zero (suc i) xs =
    let none_left : 0 - suc i ≡ 0 = omega arith in ap (λ n. take n (drop (suc i) xs)) none_left
take-drop (suc k) (suc i) [] = take_none (suc k - suc i)
take-drop (suc k) (suc i) (x ∷ xs) = ap (λ n. take n (drop i xs)) (omega arith) ∙ take-drop k i xs

pub pair_of : {A S : Type 0} {p : Result A × S} {r : Result A} → p.0 ≡ r → p ≡ (r, p.1)
pair_of {p = p} h = ap (λ r. (r, p.1)) h

module _ {W : Type 0} (env : Env W) where
  volume_at-some :
      (vs : List Volume) (j : ℕ) (v : Volume) (s : Store W)
      → get_elem? vs j ≡ some v
      → volume_at env vs (pos j) s ≡ (ok v, s)
  unfolding volume_at or_panic
  volume_at-some vs j v s e = rw (volume_at, e, or_panic) refl

  list_entries-take :
      (vs : List Volume) (n j : ℕ) (s : Store W)
      → n ≤ length vs - j
      → (entries : List VolumeEntry) × ((list_entries env vs n (pos j) s).0 ≡ ok entries)
        × (map shown entries ≡ map listed (take n (drop j vs)))
        × ((list_entries env vs n (pos j) s).1.resources ≡ s.resources)
  unfolding list_entries volume_at entry_of
  list_entries-take vs zero j s h = ([], refl, refl, refl)
  list_entries-take vs (suc n) j s h =
      let (v, e) = has_elem j vs (omega arith) in
      let ((healthy, text), answered, verdict, kept) = controller_side-Answers env v.vol_id s in
      let u = (do_health_check_in_controller_side env v.vol_id s).1 in
      let (rest, done, same, kept') = list_entries-take vs n (suc j) u (omega arith) in
      let last = list_entries env vs n (pos (suc j)) u in
      let found : volume_at env vs (pos j) s ≡ (ok v, s) = volume_at-some vs j v s e in
      let ran : list_entries env vs (suc n) (pos j) s
          ≡ (ok (entry_of v (healthy, text) ∷ rest), last.1) =
        bind-ok (volume_at env vs (pos j)) _ s s v found
        ∙ bind-ok (do_health_check_in_controller_side env v.vol_id) _ s u (healthy, text)
            (pair_of answered)
        ∙ ap (λ i. (list_entries env vs n i >>= λ es. pure (entry_of v (healthy, text) ∷ es)) u)
            (pos-suc j)
        ∙ bind-ok (list_entries env vs n (pos (suc j))) _ u last.1 rest (pair_of done) in
      (
        entry_of v (healthy, text) ∷ rest,
        ap (λ (x : Result (List VolumeEntry) × Store W). x.0) ran,
        ap (λ es. listed v ∷ es) same
            ∙ ap (λ xs. map listed (take (suc n) xs)) (sym (drop-suc j vs v e)),
        ap (λ (x : Result (List VolumeEntry) × Store W). x.1.resources) ran ∙ (kept' ∙ kept),
      )

  list_entries-low :
      (vs : List Volume) (n a : ℕ) (s : Store W)
      → (list_entries env vs (suc n) (negsuc a) s).0 ≡ panicked
  unfolding list_entries volume_at
  list_entries-low vs n a s = refl

  max_length-le : (m : ℤ) (n : ℕ) → (k : ℕ) × (max_length m (pos n) ≡ pos k) × (k ≤ n)
  unfolding max_length
  max_length-le (pos m) n = elim (Bool-cases (ltb n m || leb m 0)) [
    | inl e ↦ (n, ground arith, omega arith)
    | inr e ↦ (m, ground arith, ground arith)
  ]
  max_length-le (negsuc m) n = (n, ground arith, omega arith)

  max_length-first :
      (m : ℤ) (k : ℕ) (vs : List Volume)
      → max_length m (pos (length vs)) ≡ pos k
      → take k vs ≡ first m vs
  unfolding max_length
  max_length-first (pos zero) k vs h =
      ap (λ l. take l vs) (ground arith) ∙ take_all (length vs) vs (omega arith)
  max_length-first (pos (suc m)) k vs h = elim (Bool-cases (ltb (length vs) (suc m))) [
    | inl e ↦
        ap (λ l. take l vs) (ground arith)
        ∙ (take_all (length vs) vs (omega arith) ∙ sym (take_all (suc m) vs (ground arith)))
    | inr e ↦ let limit : k ≡ suc m = ground arith in ap (λ l. take l vs) limit
  ]
  max_length-first (negsuc m) k vs h =
      ap (λ l. take l vs) (ground arith) ∙ take_all (length vs) vs (omega arith)

  index-suc : (i : ℕ) → pos (suc i) -ℤ pos 1 ≡ pos i
  unfolding ◌-ℤ◌
  index-suc i = ground arith

  index-low : (start : ℤ) → leb_ℤ start (pos 0) ≡ true → (a : ℕ) × (start -ℤ pos 1 ≡ negsuc a)
  unfolding ◌-ℤ◌
  index-low (pos zero) low = (0, ground arith)
  index-low (pos (suc n)) low = ground arith
  index-low (negsuc n) low = (suc n, ground arith)

  rounds-negsuc : (a k : ℕ) → rounds (negsuc a) (pos k) ≡ suc (k + a)
  unfolding rounds ◌-ℤ◌
  rounds-negsuc a k = ground arith

  rounds-sub : (i k : ℕ) → rounds (pos i) (pos k) ≡ k - i
  unfolding rounds ◌-ℤ◌
  rounds-sub i k = ground arith

  -- For a starting token that is a positive int32, or none, ListVolumes succeeds and leaves the
  -- resources alone, and its entries show, in the order of the IDs, the stored volumes from the
  -- token on up to the maximum number, if it is positive, counted from the first volume and not
  -- from the token.
  pub list_volumes-page :
      (req : ListVolumesRequest) (s : Store W) (i : ℕ)
      → starting_index req.starting_token ≡ some (pos (suc i))
      → (entries : List VolumeEntry) × ((list_volumes env req s).0 ≡ ok entries)
        × (map shown entries
            ≡ map listed (drop i (first req.max_entries (sort volume_key (get_volumes s)))))
        × ((list_volumes env req s).1.resources ≡ s.resources)
  unfolding list_volumes list_from
  list_volumes-page req s i token =
      let vs = sort volume_key (get_volumes s) in
      let n = length (get_volumes s) in
      let sorted = length-sort volume_key (get_volumes s) in
      let (k, limit, most) = max_length-le req.max_entries n in
      let (entries, done, same, kept) = list_entries-take vs (k - i) i s (omega arith) in
      let ran : list_volumes env req s ≡ list_entries env vs (k - i) (pos i) s =
        ap (λ o. list_from env vs req.max_entries o s) token
        ∙ ap
            (λ x. list_entries env vs (rounds x (max_length req.max_entries (pos (length vs)))) x s)
            (index-suc i)
        ∙ ap
            (λ m.
              list_entries env vs (rounds (pos i) (max_length req.max_entries (pos m))) (pos i) s)
            sorted
        ∙ ap (λ l. list_entries env vs (rounds (pos i) l) (pos i) s) limit
        ∙ ap (λ m. list_entries env vs m (pos i) s) (rounds-sub i k) in
      (
        entries,
        ap (λ (x : Result (List VolumeEntry) × Store W). x.0) ran ∙ done,
        same
            ∙ ap (map listed) (take-drop k i vs)
            ∙ ap (λ xs. map listed (drop i xs))
                (max_length-first req.max_entries k vs
                  (ap (λ m. max_length req.max_entries (pos m)) sorted ∙ limit)),
        ap (λ (x : Result (List VolumeEntry) × Store W). x.1.resources) ran ∙ kept,
      )

  -- A starting token that is an int32 and not positive makes ListVolumes panic, however many
  -- volumes there are and whatever the maximum number of entries.
  pub list_volumes-panicked :
      (req : ListVolumesRequest) (s : Store W) (start : ℤ)
      → starting_index req.starting_token ≡ some start
      → leb_ℤ start (pos 0) ≡ true
      → (list_volumes env req s).0 ≡ panicked
  unfolding list_volumes list_from
  list_volumes-panicked req s start token low =
      let vs = sort volume_key (get_volumes s) in
      let (a, index) = index-low start low in
      let (k, limit, most) = max_length-le req.max_entries (length vs) in
      ap (λ o. (list_from env vs req.max_entries o s).0) token
      ∙ ap
          (λ x.
            (list_entries env vs (rounds x (max_length req.max_entries (pos (length vs)))) x s).0)
          index
      ∙ ap (λ l. (list_entries env vs (rounds (negsuc a) l) (negsuc a) s).0) limit
      ∙ ap (λ m. (list_entries env vs m (negsuc a) s).0) (rounds-negsuc a k)
      ∙ list_entries-low vs (k + a) a s
