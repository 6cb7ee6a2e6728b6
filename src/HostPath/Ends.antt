-- ===== src/HostPath/Ends.antt =====
-- Rules for what an action leaves behind when it returns without an error.
use csi.Prelude.{
  String, ◌≡◌, refl, sym, ap, subst, ◌∙◌, Bool, true, false, Option, none, some, List, ◌⊎◌, inl,
  inr, arith, if◌then◌else◌,
}
use csi.Exec.{
  Exec, Result, Error, ok, err, panicked, status, not_found, pure, raise, lift, fail_if, attempt,
  attempted, gets, continue, ◌>>=◌, ◌>>◌,
}
use csi.State.Types.{Volume, Resources}
use csi.State.Table.{find, upsert, erase}
use csi.State.Laws.{resources-apply, put_volume, drop_volume}
use csi.State.Store.{
  Disk, Store, volume_key, volume_name, get_volume_by_id, get_volume_by_name, update_volume,
  delete_volume, or_not_found,
}
use csi.HostPath.Leads.{volumes_of, Frames}

module _ {W : Type 0} where
  -- Started on the volumes `vs`, the action answers `a` only if it ends on volumes `us` with `Q a us`.
  pub record Ends {A : Type 0} (vs : List Volume) (Q : A → List Volume → Type 0)
      (m : Exec (Store W) A) : Type 0 where
    pub at : (s : Store W) → volumes_of s ≡ vs → (a : A) → (m s).0 ≡ ok a → Q a (volumes_of (m s).1)

module _ {W A B : Type 0} where
  continue-Ends :
      (R : A → List Volume → Type 0) (Q : B → List Volume → Type 0) (f : A → Exec (Store W) B)
      → ((a : A) (us : List Volume) → R a us → Ends us Q (f a))
      → (r : Result A) (s : Store W) → ((a : A) → r ≡ ok a → R a (volumes_of s))
      → (b : B) → (continue r f s).0 ≡ ok b
      → Q b (volumes_of (continue r f s).1)
  continue-Ends R Q f h (ok a) s reached b e = (h a _ (reached a refl)).at s refl b e
  continue-Ends R Q f h (err x) s reached b e = ground arith
  continue-Ends R Q f h panicked s reached b e = ground arith

  pub Ends-bind :
      {vs : List Volume} (R : A → List Volume → Type 0) (Q : B → List Volume → Type 0)
      (m : Exec (Store W) A) (f : A → Exec (Store W) B)
      → Ends vs R m
      → ((a : A) (us : List Volume) → R a us → Ends us Q (f a))
      → Ends vs Q (m >>= f)
  Ends-bind R Q m f h k = record {
    at = λ s e. let (r, s') = m s in continue-Ends R Q f k r s' (h.at s e);
  }

module _ {W A : Type 0} where
  pub Ends-pure :
      {vs : List Volume} (Q : A → List Volume → Type 0) (a : A)
      → Q a vs
      → Ends {W = W} vs Q (pure a)
  Ends-pure {vs} Q a q = record {
    at = λ s e b h. subst (λ us. Q b us) (sym e) (subst (λ x. Q x vs) (ground arith) q);
  }

  pub Ends-raise :
      {vs : List Volume} (Q : A → List Volume → Type 0) (x : Error) → Ends {W = W} vs Q (raise x)
  Ends-raise Q x = record { at = λ s e b h. ground arith }

  pub Ends-if :
      {vs : List Volume} (Q : A → List Volume → Type 0) (b : Bool) (m n : Exec (Store W) A)
      → (b ≡ true → Ends vs Q m)
      → (b ≡ false → Ends vs Q n)
      → Ends vs Q (if b then m else n)
  Ends-if Q true m n h k = h refl
  Ends-if Q false m n h k = k refl

  pub Ends-fail_if :
      {vs : List Volume} (Q : A → List Volume → Type 0) (b : Bool) (e : Error)
      (n : Exec (Store W) A)
      → (b ≡ false → Ends vs Q n)
      → Ends vs Q (fail_if b e >> n)
  Ends-fail_if Q true e n h = record { at = λ s p a q. ground arith }
  Ends-fail_if Q false e n h = h refl

module _ {W A B : Type 0} where
  -- Past an action that leaves the volumes alone.
  pub Ends-frame :
      {vs : List Volume} (Q : B → List Volume → Type 0) (m : Exec (Store W) A)
      (f : A → Exec (Store W) B)
      → Frames m
      → ((a : A) → Ends vs Q (f a))
      → Ends vs Q (m >>= f)
  Ends-frame {vs} Q m f h k =
      Ends-bind (λ _ us. us ≡ vs) Q m f (record { at = λ s e a _. h.at s ∙ e })
        λ a us e. subst (λ ws. Ends ws Q (f a)) (sym e) (k a)

  -- Past a reading of the volumes.
  pub Ends-gets_volumes :
      {vs : List Volume} (Q : B → List Volume → Type 0) (g : List Volume → A)
      (f : A → Exec (Store W) B)
      → Ends vs Q (f (g vs))
      → Ends vs Q (gets (λ s. g (volumes_of s)) >>= f)
  Ends-gets_volumes {vs} Q g f h = record {
    at = λ s e b p.
        subst (λ us. (f (g us) s).0 ≡ ok b → Q b (volumes_of (f (g us) s).1)) (sym e) (h.at s e b)
          p;
  }

module _ {A : Type 0} where
  IfDone : (A → List Volume → Type 0) → (Error ⊎ A) → List Volume → Type 0
  IfDone R (inl _) us = Unit
  IfDone R (inr a) us = R a us

module _ {W A : Type 0} where
  attempt-IfDone :
      {vs : List Volume} (R : A → List Volume → Type 0) (m : Exec (Store W) A)
      → Ends vs R m
      → Ends vs (IfDone R) (attempt m)
  unfolding IfDone
  attempt-IfDone R m h = record { at = λ s e a p. let (r, s') = m s in outcome r s' (h.at s e) a p }
    where
      outcome :
          (r : Result A) (s : Store W)
          → ((a : A) → r ≡ ok a → R a (volumes_of s))
          → (a : Error ⊎ A) → (attempted r s).0 ≡ ok a
          → IfDone R a (volumes_of (attempted r s).1)
      outcome (ok a) s reached (inr b) p =
          subst (λ x. R x (volumes_of s)) (ground arith) (reached a refl)
      outcome (ok a) s reached (inl b) p = tt
      outcome (err x) s reached (inr b) p = absurd (ground arith)
      outcome (err x) s reached (inl b) p = tt
      outcome panicked s reached b p = absurd (ground arith)

module _ {W A B : Type 0} where
  -- Past a call whose error is handled.
  pub Ends-attempt :
      {vs : List Volume} (R : A → List Volume → Type 0) (Q : B → List Volume → Type 0)
      (m : Exec (Store W) A) (f : (Error ⊎ A) → Exec (Store W) B)
      → Ends vs R m
      → ((x : Error) (us : List Volume) → Ends us Q (f (inl x)))
      → ((a : A) (us : List Volume) → R a us → Ends us Q (f (inr a)))
      → Ends vs Q (attempt m >>= f)
  unfolding IfDone
  Ends-attempt {vs} R Q m f h failed done =
      Ends-bind (IfDone R) Q _ f (attempt-IfDone R m h) handled
    where
      handled : (r : Error ⊎ A) (us : List Volume) → IfDone R r us → Ends us Q (f r)
      handled (inl x) us _ = failed x us
      handled (inr a) us reached = done a us reached

module _ {W A : Type 0} where
  found_Ends :
      {vs : List Volume} (Q : A → List Volume → Type 0) (key : Volume → String) (k : String)
      (f : (Error ⊎ Volume) → Exec (Store W) A)
      → (find key k vs ≡ none → Ends vs Q (f (inl (status not_found))))
      → ((v : Volume) → find key k vs ≡ some v → Ends vs Q (f (inr v)))
      → (o : Option Volume) → find key k vs ≡ o
      → (s : Store W) → volumes_of s ≡ vs
      → (a : A) → ((attempt (lift (or_not_found o)) >>= f) s).0 ≡ ok a
      → Q a (volumes_of ((attempt (lift (or_not_found o)) >>= f) s).1)
  found_Ends Q key k f h g none p s e = (h p).at s e
  found_Ends Q key k f h g (some v) p s e = (g v p).at s e

  -- Past a lookup whose failure is handled.
  pub Ends-attempt_id :
      {vs : List Volume} (Q : A → List Volume → Type 0) (k : String)
      (f : (Error ⊎ Volume) → Exec (Store W) A)
      → (find volume_key k vs ≡ none → Ends vs Q (f (inl (status not_found))))
      → ((v : Volume) → find volume_key k vs ≡ some v → Ends vs Q (f (inr v)))
      → Ends vs Q (attempt (get_volume_by_id k) >>= f)
  unfolding get_volume_by_id
  Ends-attempt_id Q k f h g = record {
    at = λ s e.
        found_Ends Q volume_key k f h g (find volume_key k (volumes_of s))
          (sym (ap (find volume_key k) e)) s e;
  }

  pub Ends-attempt_name :
      {vs : List Volume} (Q : A → List Volume → Type 0) (k : String)
      (f : (Error ⊎ Volume) → Exec (Store W) A)
      → (find volume_name k vs ≡ none → Ends vs Q (f (inl (status not_found))))
      → ((v : Volume) → find volume_name k vs ≡ some v → Ends vs Q (f (inr v)))
      → Ends vs Q (attempt (get_volume_by_name k) >>= f)
  unfolding get_volume_by_name
  Ends-attempt_name Q k f h g = record {
    at = λ s e.
        found_Ends Q volume_name k f h g (find volume_name k (volumes_of s))
          (sym (ap (find volume_name k) e)) s e;
  }

module _ {W A : Type 0} (disk : Disk W) where
  pub Ends-update_volume :
      {vs : List Volume} (Q : A → List Volume → Type 0) (v : Volume)
      (f : Unit {0} → Exec (Store W) A)
      → ((a : Unit {0}) → Ends (upsert volume_key v vs) Q (f a))
      → Ends vs Q (update_volume disk v >>= f)
  Ends-update_volume {vs} Q v f h =
      Ends-bind (λ _ us. us ≡ upsert volume_key v vs) Q _ f
        record {
          at = λ s e _ _.
              ap (λ (r : Resources). r.volumes) (resources-apply disk (put_volume v) s)
              ∙ ap (upsert volume_key v) e;
        }
        λ a us e. subst (λ ws. Ends ws Q (f a)) (sym e) (h a)

  pub Ends-delete_volume :
      {vs : List Volume} (Q : A → List Volume → Type 0) (k : String)
      (f : Unit {0} → Exec (Store W) A)
      → ((a : Unit {0}) → Ends (erase volume_key k vs) Q (f a))
      → Ends vs Q (delete_volume disk k >>= f)
  Ends-delete_volume {vs} Q k f h =
      Ends-bind (λ _ us. us ≡ erase volume_key k vs) Q _ f
        record {
          at = λ s e _ _.
              ap (λ (r : Resources). r.volumes) (resources-apply disk (drop_volume k) s)
              ∙ ap (erase volume_key k) e;
        }
        λ a us e. subst (λ ws. Ends ws Q (f a)) (sym e) (h a)
