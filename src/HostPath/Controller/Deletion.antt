-- ===== src/HostPath/Controller/Deletion.antt =====
-- What `DeleteVolume` promises: a volume in use stays, any other is gone, and the call may be repeated.
use csi.Prelude.{
  String, ◌≡◌, ◌≢◌, refl, sym, ◌∙◌, Bool, true, false, ◌&&◌, none, some, List, [], ◌∷◌, ◌⊎◌, inl,
  inr, ◌==◌, ==-refl, arith,
}
use csi.Exec.{
  Exec, Error, Result, ok, status, formatted, invalid_argument, lift, fail_if, attempt, ◌>>=◌, ◌>>◌,
}
use csi.State.Strings
use csi.State.Types.{Volume}
use csi.State.Table.{find, erase, erase_absent, Distinct, find-erase}
use csi.State.Store.{Store, volume_key, get_volume_by_id}
use csi.HostPath.Env.{Env}
use csi.HostPath.Capabilities.{create_delete_volume, validate_controller_service_request}
use csi.HostPath.Core.Success.{delete_hostpath-Ends}
use csi.HostPath.Controller.{formatted_error, in_use, delete_if_unused, delete_volume}
use csi.HostPath.Leads.{volumes_of, Frames-lift}
use csi.HostPath.Ends.{
  Ends, Ends-pure, Ends-raise, Ends-frame, Ends-fail_if, Ends-attempt, Ends-attempt_id,
}

module _ {W : Type 0} (env : Env W) where
  delete-Ends :
      (vs : List Volume) (k : String)
      → Ends vs (λ _ us. us ≡ erase volume_key k vs) (delete_volume env k)
  unfolding delete_volume delete_if_unused formatted_error
  delete-Ends vs k = Ends-fail_if _ (k == "") _ _ λ _. Ends-frame _ _ _ (Frames-lift _) λ _.
      Ends-attempt_id _ k _ (λ absent. Ends-pure _ tt (sym (erase_absent volume_key k vs absent)))
        λ v found. Ends-fail_if _ (in_use env v && env.config.check_volume_lifecycle) _ _ λ _.
          Ends-attempt _ _ _ _ (delete_hostpath-Ends env vs k) (λ x us. Ends-raise _ formatted)
            λ _ us e. Ends-pure _ tt e

  -- The checks before the lookup of the ID.
  checked : Result (Unit {0}) → Bool → Error → Exec (Store W) (Unit {0}) → Exec (Store W) (Unit {0})
  checked r b x m = fail_if b x >> (lift r >> m)

  past_checks :
      (r : Result (Unit {0})) (b : Bool) (x : Error) (m : Exec (Store W) (Unit {0})) (s : Store W)
      → (checked r b x m s).0 ≡ ok tt
      → (t : Store W) → checked r b x m t ≡ m t
  unfolding checked
  past_checks r b x m s h t = ground arith

  delete_absent :
      (k : String) (t : Store W)
      → find volume_key k (volumes_of t) ≡ none
      → (attempt (get_volume_by_id k) >>= delete_if_unused env k) t ≡ (ok tt, t)
  unfolding delete_if_unused get_volume_by_id
  delete_absent k t absent = rw absent refl

  -- Where IDs are distinct, a deletion that succeeds leaves all other volumes and none under the
  -- ID. To repeat it succeeds and changes nothing.
  pub delete_volume-gone :
      (k : String) (s : Store W)
      → Distinct volume_key (volumes_of s)
      → (delete_volume env k s).0 ≡ ok tt
      → let t = (delete_volume env k s).1 in
        (volumes_of t ≡ erase volume_key k (volumes_of s))
        × (find volume_key k (volumes_of t) ≡ none)
        × (delete_volume env k t ≡ (ok tt, t))
  unfolding delete_volume checked get_volume_by_id delete_if_unused
  delete_volume-gone k s distinct h =
      let t = (delete_volume env k s).1 in
      let erased = (delete-Ends (volumes_of s) k).at s refl tt h in
      let absent : find volume_key k (volumes_of t) ≡ none =
        rw (erased, find-erase volume_key k k (volumes_of s) distinct, ==-refl k) refl in
      let again =
        past_checks (validate_controller_service_request env.config create_delete_volume) (k == "")
          (status invalid_argument) (attempt (get_volume_by_id k) >>= delete_if_unused env k) s h
          t in
      (erased, absent, again ∙ delete_absent k t absent)

  is_empty-ne : (xs : List String) → xs ≢ [] → Strings.is_empty xs ≡ false
  unfolding Strings.is_empty
  is_empty-ne [] h = absurd (h refl)
  is_empty-ne (x ∷ xs) h = refl

  in_use_lem :
      (v : Volume)
      → (v.attached ≡ true) ⊎ (v.staged ≢ []) ⊎ (v.published ≢ [])
      → in_use env v ≡ true
  in_use_lem v (inl h) = ground arith
  in_use_lem v (inr (inl h)) = let staged = is_empty-ne v.staged h in ground arith
  in_use_lem v (inr (inr h)) = let published = is_empty-ne v.published h in ground arith

  -- While the life cycle is checked, a volume of the state that is attached, staged or published
  -- is not deleted: the request fails and nothing at all changes.
  pub delete_volume-in_use :
      (k : String) (s : Store W) (v : Volume)
      → find volume_key k (volumes_of s) ≡ some v
      → (v.attached ≡ true) ⊎ (v.staged ≢ []) ⊎ (v.published ≢ [])
      → env.config.check_volume_lifecycle ≡ true
      → ((delete_volume env k s).0 ≢ ok tt) × ((delete_volume env k s).1 ≡ s)
  unfolding delete_volume delete_if_unused get_volume_by_id
  delete_volume-in_use k s v found used check = let busy = in_use_lem v used in ground arith
