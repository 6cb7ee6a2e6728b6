-- ===== src/HostPath/Controller/Checks.antt =====
-- The checks of `CreateVolume` before the lookup of the name, and a name that is taken.
use csi.Prelude.{◌≡◌, refl, Bool, true, false, some, inr, ◌==◌, arith}
use csi.Exec.{
  Exec, Error, Result, ok, err, panicked, status, invalid_argument, lift, fail_if, ◌>>=◌, ◌>>◌,
  attempt,
}
use csi.State.Types.{AccessType, Volume}
use csi.State.Table.{find}
use csi.State.Store.{Store, volume_name, get_volume_by_name}
use csi.HostPath.Env.{Env}
use csi.HostPath.Requests.{CreateVolumeRequest, VolumeInfo}
use csi.HostPath.Capabilities.{create_delete_volume, validate_controller_service_request}
use csi.HostPath.Controller.{
  create_or_reuse, create_volume, requested_access_type, validate_mutable_parameters,
}
use csi.HostPath.Leads.{volumes_of}

module _ {W : Type 0} (env : Env W) where
  -- The checks before the lookup of the name look at the request only.
  checked :
      {A B : Type 0}
      → Result (Unit {0})
      → Result (Unit {0})
      → Bool
      → Error
      → Result A
      → (A → Exec (Store W) B)
      → Exec (Store W) B
  checked r r' b x r'' k = lift r >> (lift r' >> (fail_if b x >> (lift r'' >>= k)))

  past_checks :
      {A B : Type 0} (r r' : Result (Unit {0})) (b : Bool) (x : Error) (r'' : Result A)
      (k : A → Exec (Store W) B) (s : Store W) {info : B}
      → (checked r r' b x r'' k s).0 ≡ ok info
      → (a : A) × ((t : Store W) → checked r r' b x r'' k t ≡ k a t)
  unfolding checked
  past_checks (ok _) (ok _) false x (ok a) k s h = (a, λ t. refl)
  past_checks (ok _) (ok _) false x (err _) k s h = ground arith
  past_checks (ok _) (ok _) false x panicked k s h = ground arith
  past_checks (ok _) (ok _) true x r'' k s h = ground arith
  past_checks (ok _) (err _) b x r'' k s h = ground arith
  past_checks (ok _) panicked b x r'' k s h = ground arith
  past_checks (err _) r' b x r'' k s h = ground arith
  past_checks panicked r' b x r'' k s h = ground arith

  pub create_volume-past_checks :
      (req : CreateVolumeRequest) (s : Store W) {info : VolumeInfo}
      → (create_volume env req s).0 ≡ ok info
      → (access_type : AccessType) × ((t : Store W)
          → create_volume env req t
            ≡ (attempt (get_volume_by_name req.name) >>= create_or_reuse env req access_type) t)
  unfolding create_volume checked
  create_volume-past_checks req s h =
      past_checks (validate_controller_service_request env.config create_delete_volume)
        (validate_mutable_parameters env req.mutable_parameters) (req.name == "")
        (status invalid_argument) (requested_access_type req.volume_capabilities)
        (λ access_type.
          attempt (get_volume_by_name req.name) >>= create_or_reuse env req access_type)
        s h

  -- Where the name is taken.
  pub create_volume-taken :
      (req : CreateVolumeRequest) (access_type : AccessType) (v : Volume) (t : Store W)
      → find volume_name req.name (volumes_of t) ≡ some v
      → (attempt (get_volume_by_name req.name) >>= create_or_reuse env req access_type) t
        ≡ create_or_reuse env req access_type (inr v) t
  unfolding get_volume_by_name
  create_volume-taken req access_type v t e = rw e refl
