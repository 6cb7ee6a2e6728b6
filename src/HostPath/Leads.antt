-- ===== src/HostPath/Leads.antt =====
-- Rules for what an action does to the volumes of the state, one for each way to build an action.
mod Framing
pub use Framing.*
use csi.Prelude.{
  String, ◌≡◌, refl, sym, ap, subst, ◌∙◌, Bool, true, false, Option, none, some, List, ◌⊎◌, inl,
  inr, if◌then◌else◌,
}
use csi.Exec.{
  Exec, Result, Error, ok, err, panicked, status, not_found, pure, raise, panic, lift, fail_if,
  fail_with, OsError, attempt, attempted, gets, continue, ◌>>=◌, ◌>>◌,
}
use csi.State.Types.{Volume, Resources}
use csi.State.Table.{find, upsert, erase}
use csi.State.Laws.{resources-apply, put_volume, drop_volume}
use csi.State.Store.{
  Disk, Store, volume_key, volume_name, get_volume_by_id, get_snapshot_by_id, get_volume_by_name,
  update_volume, delete_volume, or_not_found,
}
use csi.HostPath.Env.{call}

module _ {W : Type 0} where
  -- Started on the volumes `vs`, the action ends on volumes that satisfy `Q`, however it ends.
  pub record Leads {A : Type 0} (vs : List Volume) (Q : List Volume → Type 0) (m : Exec (Store W) A)
      : Type 0 where
    pub at : (s : Store W) → volumes_of s ≡ vs → Q (volumes_of (m s).1)

module _ {W A B : Type 0} where
  continue-Leads :
      {vs : List Volume} (Q : List Volume → Type 0) (f : A → Exec (Store W) B)
      → Q vs
      → ((a : A) → Leads vs Q (f a))
      → (r : Result A) (s : Store W) → volumes_of s ≡ vs
      → Q (volumes_of (continue r f s).1)
  continue-Leads Q f q h (ok a) s e = (h a).at s e
  continue-Leads Q f q h (err x) s e = rw e q
  continue-Leads Q f q h panicked s e = rw e q

  -- Past an action that leaves the volumes alone.
  pub Leads-frame :
      {vs : List Volume} (Q : List Volume → Type 0) (m : Exec (Store W) A)
      (f : A → Exec (Store W) B)
      → Frames m
      → Q vs
      → ((a : A) → Leads vs Q (f a))
      → Leads vs Q (m >>= f)
  Leads-frame Q m f h q k = record {
    at = λ s e. let (r, s') = m s in continue-Leads Q f q k r s' (h.at s ∙ e);
  }

  -- In sequence, with `R` for what the first action leads to.
  pub Leads-bind :
      {vs : List Volume} (R Q : List Volume → Type 0) (m : Exec (Store W) A)
      (f : A → Exec (Store W) B)
      → Leads vs R m
      → ((us : List Volume) → R us → Q us)
      → ((a : A) (us : List Volume) → R us → Leads us Q (f a))
      → Leads vs Q (m >>= f)
  Leads-bind R Q m f h q k = record {
    at = λ s e.
        let (r, s') = m s in
        let reached = h.at s e in continue-Leads Q f (q _ reached) (λ a. k a _ reached) r s' refl;
  }

module _ {W A : Type 0} where
  pub Leads-Frames :
      {vs : List Volume} (Q : List Volume → Type 0) (m : Exec (Store W) A)
      → Frames m
      → Q vs
      → Leads vs Q m
  Leads-Frames Q m h q = record { at = λ s e. rw (h.at s ∙ e) q }

  pub Leads-attempt :
      {vs : List Volume} (Q : List Volume → Type 0) (m : Exec (Store W) A)
      → Leads vs Q m
      → Leads vs Q (attempt m)
  Leads-attempt Q m h = record {
    at = λ s e. let (r, s') = m s in rw (attempted-volumes r s') (h.at s e);
  }

  -- Past a check, which the rest may rely on.
  pub Leads-fail_if :
      {vs : List Volume} (Q : List Volume → Type 0) (b : Bool) (e : Error) (n : Exec (Store W) A)
      → Q vs
      → (b ≡ false → Leads vs Q n)
      → Leads vs Q (fail_if b e >> n)
  Leads-fail_if Q true e n q h = record { at = λ s p. rw p q }
  Leads-fail_if Q false e n q h = h refl

  pub Leads-if :
      {vs : List Volume} (Q : List Volume → Type 0) (b : Bool) (m n : Exec (Store W) A)
      → (b ≡ true → Leads vs Q m)
      → (b ≡ false → Leads vs Q n)
      → Leads vs Q (if b then m else n)
  Leads-if Q true m n h k = h refl
  Leads-if Q false m n h k = k refl

  -- Past a reading of the volumes.
  pub Leads-gets_volumes :
      {B : Type 0} {vs : List Volume} (Q : List Volume → Type 0) (g : List Volume → B)
      (f : B → Exec (Store W) A)
      → Leads vs Q (f (g vs))
      → Leads vs Q (gets (λ s. g (volumes_of s)) >>= f)
  Leads-gets_volumes {vs} Q g f h = record {
    at = λ s e. subst (λ us. Q (volumes_of (f (g us) s).1)) (sym e) (h.at s e);
  }

  -- Past a lookup that has to succeed.
  pub Leads-get_volume_by_id :
      {vs : List Volume} (Q : List Volume → Type 0) (k : String) (f : Volume → Exec (Store W) A)
      → Q vs
      → ((v : Volume) → find volume_key k vs ≡ some v → Leads vs Q (f v))
      → Leads vs Q (get_volume_by_id k >>= f)
  unfolding get_volume_by_id
  Leads-get_volume_by_id {vs} Q k f q h = record {
    at = λ s e. found (find volume_key k (volumes_of s)) (sym (ap (find volume_key k) e)) s e;
  }
    where
      found :
          (o : Option Volume)
          → find volume_key k vs ≡ o
          → (s : Store W) → volumes_of s ≡ vs
          → Q (volumes_of (continue (or_not_found o) f s).1)
      found none p s e = rw e q
      found (some v) p s e = (h v p).at s e

  -- Past a lookup whose failure is handled.
  attempt_Leads :
      {vs : List Volume} (Q : List Volume → Type 0) (key : Volume → String) (k : String)
      (f : (Error ⊎ Volume) → Exec (Store W) A)
      → (find key k vs ≡ none → Leads vs Q (f (inl (status not_found))))
      → ((v : Volume) → find key k vs ≡ some v → Leads vs Q (f (inr v)))
      → (o : Option Volume) → find key k vs ≡ o
      → (s : Store W) → volumes_of s ≡ vs
      → Q (volumes_of ((attempt (lift (or_not_found o)) >>= f) s).1)
  attempt_Leads Q key k f h g none p s e = (h p).at s e
  attempt_Leads Q key k f h g (some v) p s e = (g v p).at s e

  pub Leads-attempt_id :
      {vs : List Volume} (Q : List Volume → Type 0) (k : String)
      (f : (Error ⊎ Volume) → Exec (Store W) A)
      → (find volume_key k vs ≡ none → Leads vs Q (f (inl (status not_found))))
      → ((v : Volume) → find volume_key k vs ≡ some v → Leads vs Q (f (inr v)))
      → Leads vs Q (attempt (get_volume_by_id k) >>= f)
  unfolding get_volume_by_id
  Leads-attempt_id Q k f h g = record {
    at = λ s e.
        attempt_Leads Q volume_key k f h g (find volume_key k (volumes_of s))
          (sym (ap (find volume_key k) e)) s e;
  }

  pub Leads-attempt_name :
      {vs : List Volume} (Q : List Volume → Type 0) (k : String)
      (f : (Error ⊎ Volume) → Exec (Store W) A)
      → (find volume_name k vs ≡ none → Leads vs Q (f (inl (status not_found))))
      → ((v : Volume) → find volume_name k vs ≡ some v → Leads vs Q (f (inr v)))
      → Leads vs Q (attempt (get_volume_by_name k) >>= f)
  unfolding get_volume_by_name
  Leads-attempt_name Q k f h g = record {
    at = λ s e.
        attempt_Leads Q volume_name k f h g (find volume_name k (volumes_of s))
          (sym (ap (find volume_name k) e)) s e;
  }

module _ {W : Type 0} (disk : Disk W) where
  pub Leads-update_volume :
      {vs : List Volume} (Q : List Volume → Type 0) (v : Volume)
      → Q (upsert volume_key v vs)
      → Leads vs Q (update_volume disk v)
  Leads-update_volume Q v q = record {
    at = λ s e.
        let effects = ap (λ (r : Resources). r.volumes) (resources-apply disk (put_volume v) s) in
        subst Q (sym (effects ∙ ap (upsert volume_key v) e)) q;
  }

  pub Leads-delete_volume :
      {vs : List Volume} (Q : List Volume → Type 0) (k : String)
      → Q (erase volume_key k vs)
      → Leads vs Q (delete_volume disk k)
  Leads-delete_volume Q k q = record {
    at = λ s e.
        let effects = ap (λ (r : Resources). r.volumes) (resources-apply disk (drop_volume k) s) in
        subst Q (sym (effects ∙ ap (erase volume_key k) e)) q;
  }
