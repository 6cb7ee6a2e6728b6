-- ===== src/HostPath/Core/Success.antt =====
-- What `createVolume` and `deleteVolume` leave behind when they succeed.
use csi.Prelude.{String, ◌≡◌, refl, sym, ap, Bool, not, List, ◌==◌, arith, if◌then◌else◌}
use csi.Prelude.Int.{ℤ, pos, ◌≤ℤ◌, ltb_ℤ, add64, le_of_not_ltb}
use csi.Exec.{status, resource_exhausted, pure, gets, fail_if, ◌>>=◌, ◌>>◌}
use csi.State.Types.{AccessType, Volume}
use csi.State.Table.{upsert, erase, erase_absent}
use csi.State.Store.{Store, volume_key, get_volumes}
use csi.HostPath.Env.{Env, lookup_or}
use csi.HostPath.Core.{
  sum_sizes, sum_volume_sizes, enabled, check_capacity, new_volume, create_hostpath_volume,
  delete_found, delete_hostpath_volume,
}
use csi.HostPath.Core.Frames.{Frames-make_storage, Frames-detach, Frames-unless_not_exist}
use csi.HostPath.Leads.{Frames-call, Frames-gets}
use csi.HostPath.Ends.{
  Ends, Ends-pure, Ends-bind, Ends-frame, Ends-if, Ends-fail_if, Ends-gets_volumes, Ends-attempt_id,
  Ends-update_volume, Ends-delete_volume,
}

module _ {W : Type 0} (env : Env W) where
  -- The kind has room for the volume, if the driver keeps track of capacity; else it is empty.
  abbrev pub HasRoom : ℤ → List Volume → String → Type 0
  HasRoom cap vs kind =
      if enabled env.config.capacity
      then add64 (sum_sizes kind vs (pos 0)) cap ≤ℤ lookup_or (pos 0) kind env.config.capacity
      else kind ≡ ""

  check_capacity-Ends :
      (vs : List Volume) (cap : ℤ) (kind : String)
      → Ends vs (λ picked us. HasRoom cap vs picked × (us ≡ vs)) (check_capacity env cap kind)
  unfolding check_capacity get_volumes
  check_capacity-Ends vs cap kind =
      let refused = status resource_exhausted in
      let limit = λ (picked : String). lookup_or (pos 0) picked env.config.capacity in
      let check = λ (picked : String) (used : ℤ).
        fail_if {S = Store W} (ltb_ℤ (limit picked) (add64 used cap)) refused >> pure picked in
      Ends-if _ (enabled env.config.capacity) _ _
        (λ on. Ends-frame _ _ _ (Frames-call _) λ order. Ends-frame _ _ _ (Frames-gets _) λ picked.
          Ends-fail_if _ (picked == "") refused (gets (sum_volume_sizes picked) >>= check picked)
            λ _.
              let used = sum_sizes picked vs (pos 0) in
              Ends-gets_volumes _ (λ us. sum_sizes picked us (pos 0)) (check picked)
                (Ends-fail_if _ (ltb_ℤ (limit picked) (add64 used cap)) refused _ λ fits.
                  Ends-pure _ picked
                    (rw on (le_of_not_ltb (limit picked) (add64 used cap) fits), refl)))
        (λ off.
          Ends-fail_if _ (not (kind == "")) _ _ λ e. Ends-pure _ kind (rw off (ground arith), refl))

  pub create_hostpath-Ends :
      (vs : List Volume) (vol_id name : String) (size : ℤ) (access_type : AccessType)
      (ephemeral : Bool) (kind : String)
      → Ends vs
          (λ v us.
            (v ≡ new_volume env vol_id name size access_type ephemeral v.kind)
            × (us ≡ upsert volume_key v vs)
            × (size ≤ℤ env.config.max_volume_size)
            × HasRoom size vs v.kind)
          (create_hostpath_volume env vol_id name size access_type ephemeral kind)
  unfolding create_hostpath_volume
  create_hostpath-Ends vs vol_id name size access_type ephemeral kind =
      Ends-fail_if _ (ltb_ℤ env.config.max_volume_size size) _ _ λ fits.
        Ends-bind _ _ _ _ (check_capacity-Ends vs size kind) λ picked us (room, e).
          Ends-frame _ _ _ (Frames-make_storage env _ size access_type) λ _.
            Ends-update_volume env.disk _ _ _ λ _. Ends-frame _ _ _ (Frames-call _) λ _.
              Ends-pure _ _ (
                refl,
                ap (upsert volume_key _) e,
                le_of_not_ltb env.config.max_volume_size size fits,
                room,
              )

  pub delete_hostpath-Ends :
      (vs : List Volume) (k : String)
      → Ends vs (λ _ us. us ≡ erase volume_key k vs) (delete_hostpath_volume env k)
  unfolding delete_hostpath_volume delete_found
  delete_hostpath-Ends vs k =
      Ends-attempt_id _ k _ (λ absent. Ends-pure _ tt (sym (erase_absent volume_key k vs absent)))
        λ v found. Ends-frame _ _ _ (Frames-detach env v.vol_access_type _) λ _.
          Ends-frame _ _ _ (Frames-call _) λ e.
            Ends-frame _ _ _ (Frames-unless_not_exist env e) λ _.
              Ends-delete_volume env.disk _ k _
                λ _. Ends-frame _ _ _ (Frames-call _) λ _. Ends-pure _ tt refl
