-- ===== src/HostPath/Volumes/Condition.antt =====
-- What `ControllerGetVolume` answers.
use csi.Prelude.{
  String, ◌≡◌, ◌↔◌, refl, sym, ap, ◌∙◌, Bool, true, false, not, Option, none, some, inl, inr, arith,
  [],
}
use csi.Prelude.Int.{pos}
use csi.Exec.{Result, ok, attempted, status, not_found, bind-ok, pure, ◌>>=◌}
use csi.State.Types.{Volume}
use csi.State.Table.{find}
use csi.State.Store.{Store, volume_key, or_not_found, get_volume_by_id}
use csi.HostPath.Env.{Env}
use csi.HostPath.Health.{Message, no_text, error_text, do_health_check_in_controller_side}
use csi.HostPath.Health.Quiet.{IsVerdict, controller_side-Answers}
use csi.HostPath.Health.Sound.{IsSound, health_check_iff}
use csi.HostPath.Volumes.{VolumeEntry, entry_of, missing_entry, described, controller_get_volume}
use csi.HostPath.Volumes.Page.{shown, listed, pair_of}

module _ {W : Type 0} (env : Env W) where
  verdict_eq :
      (b : Bool) (text : Message)
      → b ≡ true
      → text ≡ no_text
      → ◌≡◌ {A = Result (Bool × Message)} (ok (b, text)) (ok (true, no_text))
  verdict_eq b text p q = cc

  -- A verdict is good exactly for a sound volume.
  good_iff :
      (vol_id : String) (s : Store W) (b : Bool) (text : Message)
      → (do_health_check_in_controller_side env vol_id s).0 ≡ ok (b, text)
      → IsVerdict env (b, text)
      → (not b ≡ false) ↔ IsSound env vol_id s
  good_iff vol_id s b text h (inl (good, quiet)) =
      let (to, back) = health_check_iff env vol_id s in
      ((λ _. to (h ∙ verdict_eq b text good quiet)), λ _. ground arith)
  good_iff vol_id s b text h (inr (bad, loud)) =
      let (to, back) = health_check_iff env vol_id s in
      ((λ g. ground arith), λ sound. let ends = sym h ∙ back sound in cc)

  abbrev pub Answer : String → Store W → Option Volume → VolumeEntry → Type 0
  Answer vol_id s none e =
      (e.volume_id ≡ vol_id)
      × (e.capacity_bytes ≡ pos 0)
      × (e.published_node_ids ≡ [])
      × (e.condition.abnormal ≡ true)
      × (e.condition.message ≡ error_text (status not_found))
  Answer vol_id s (some v) e = shown e ≡ listed v

  described-Answer :
      (vol_id : String) (o : Option Volume) (s : Store W)
      → find volume_key vol_id s.resources.volumes ≡ o
      → (e : VolumeEntry) × (((attempted (or_not_found o) >>= described env vol_id) s).0 ≡ ok e)
        × (((attempted (or_not_found o) >>= described env vol_id) s).1.resources ≡ s.resources)
        × Answer vol_id s o e
        × ((e.condition.abnormal ≡ false) ↔ IsSound env vol_id s)
  unfolding described missing_entry entry_of
  described-Answer vol_id none s h = (
    missing_entry vol_id (status not_found),
    refl,
    refl,
    (refl, refl, refl, refl, refl),
    ((λ bad. cc), λ (mode, a, fs, volume, b, c, d, later, e, f). cc),
  )
  described-Answer vol_id (some v) s h =
      let ((healthy, text), answered, verdict, kept) = controller_side-Answers env vol_id s in
      let u = (do_health_check_in_controller_side env vol_id s).1 in
      let ran =
        bind-ok (do_health_check_in_controller_side env vol_id) (λ w. pure (entry_of v w)) s u
          (healthy, text) (pair_of answered) in
      (
        entry_of v (healthy, text),
        ap (λ (x : Result VolumeEntry × Store W). x.0) ran,
        ap (λ (x : Result VolumeEntry × Store W). x.1.resources) ran ∙ kept,
        refl,
        good_iff vol_id s healthy text answered verdict,
      )

  -- ControllerGetVolume never fails and leaves the resources alone. It shows the ID, the size and
  -- the node of the stored volume of the ID. If there is none, it answers the ID with the size 0
  -- and no node, an abnormal condition and the text of the error that it was not found. It reports
  -- no abnormal condition exactly when the volume passes the health check of the controller side.
  pub controller_get_volume-Answer :
      (vol_id : String) (s : Store W)
      → (e : VolumeEntry) × ((controller_get_volume env vol_id s).0 ≡ ok e)
        × ((controller_get_volume env vol_id s).1.resources ≡ s.resources)
        × Answer vol_id s (find volume_key vol_id s.resources.volumes) e
        × ((e.condition.abnormal ≡ false) ↔ IsSound env vol_id s)
  unfolding controller_get_volume get_volume_by_id described
  controller_get_volume-Answer vol_id s =
      described-Answer vol_id (find volume_key vol_id s.resources.volumes) s refl
