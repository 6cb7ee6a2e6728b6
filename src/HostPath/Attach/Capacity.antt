-- ===== src/HostPath/Attach/Capacity.antt =====
-- `GetCapacity` and the capacity checks of `createVolume` agree.
use csi.Prelude.{String, ◌≡◌, ◌≢◌, ◌↔◌, Bool, true, false, arith, if◌then◌else◌}
use csi.Prelude.Int.{
  ℤ, pos, ◌+ℤ◌, ◌-ℤ◌, ◌≤ℤ◌, ltb_ℤ, add64, sub64, IsInt64, wrap64_self, +ℤ_parts, -ℤ_parts,
}
use csi.Exec.{ok, err, status, resource_exhausted}
use csi.State.Store.{Store, get_volumes}
use csi.HostPath.Env.{Dict, lookup_or, Env, call}
use csi.HostPath.Core.{sum_volume_sizes, check_capacity, enabled}
use csi.HostPath.Attach.{get_capacity}

fits_iff :
    (used bytes quantity : ℤ)
    → (ltb_ℤ quantity (used +ℤ bytes) ≡ false) ↔ (bytes ≤ℤ quantity -ℤ used)
fits_iff used bytes quantity = (
  λ h. ground (arith, +ℤ_parts used bytes, -ℤ_parts quantity used),
  λ h. ground (arith, +ℤ_parts used bytes, -ℤ_parts quantity used),
)

module _ {W : Type 0} (env : Env W) where
  abbrev pub used : String → Store W → ℤ
  used kind s = sum_volume_sizes kind s

  abbrev pub quantity : String → ℤ
  quantity kind = lookup_or (pos 0) kind env.config.capacity

  check_capacity-answer :
      (bytes : ℤ) (kind : String) (s : Store W)
      → kind ≢ ""
      → enabled env.config.capacity ≡ true
      → (check_capacity env bytes kind s).0 ≡ (
          if ltb_ℤ (quantity kind) (add64 (used kind s) bytes)
          then err (status resource_exhausted)
          else ok kind)
  unfolding check_capacity call get_volumes
  check_capacity-answer bytes kind s named on = ground arith

  decided :
      (b : Bool) (kind : String)
      → ((if b then err (status resource_exhausted) else ok kind) ≡ ok kind) ↔ (b ≡ false)
  decided b kind = (λ h. ground arith, λ h. ground arith)

  -- For a kind that is named, where the driver keeps track of capacity and the sums stay in int64,
  -- the check lets a new volume pass exactly when it is no larger than the capacity that
  -- GetCapacity reports as available for the kind.
  pub check_capacity_iff :
      (bytes : ℤ) (params : Dict String) (s : Store W)
      → let kind = lookup_or "" "kind" params in
        kind ≢ ""
        → enabled env.config.capacity ≡ true
        → IsInt64 (used kind s +ℤ bytes)
        → IsInt64 (quantity kind -ℤ used kind s)
        → ((check_capacity env bytes kind s).0 ≡ ok kind)
          ↔ (bytes ≤ℤ (get_capacity env params s).available_capacity)
  unfolding get_capacity add64 sub64 get_volumes
  check_capacity_iff bytes params s named on no_wrap no_wrap' =
      let kind = lookup_or "" "kind" params in
      let (to, from) = fits_iff (used kind s) bytes (quantity kind) in
      let (to', from') = decided (ltb_ℤ (quantity kind) (used kind s +ℤ bytes)) kind in
      rw
        (
          check_capacity-answer bytes kind s named on,
          wrap64_self (used kind s +ℤ bytes) no_wrap,
          on,
          wrap64_self (quantity kind -ℤ used kind s) no_wrap',
        )
        (λ h. to (to' h), λ h. from' (from h))
