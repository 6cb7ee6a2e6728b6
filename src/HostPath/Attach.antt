-- ===== src/HostPath/Attach.antt =====
-- Attaching, expanding, modifying and validating volumes, and the capacity left
-- (pkg/hostpath/controllerserver.go).
pub mod Refines
pub mod Retry
pub mod Capacity
use csi.Prelude.{
  String, Bool, true, false, not, ◌&&◌, ◌||◌, Option, none, some, List, [], ◌∷◌, ◌⊎◌, inl, inr,
  ◌==◌, ite, if◌then◌else◌,
}
use mathlib.Core.Bool.{Bool-discrete}
use csi.Prelude.Int.{ℤ, pos, ltb_ℤ, leb_ℤ, sub64}
use csi.Exec.{
  Exec, Error, Result, ok, err, status, already_exists, invalid_argument, internal, not_found,
  out_of_range, resource_exhausted, unimplemented, pure, raise, gets, lift, fail_if, attempt, ◌>>=◌,
  ◌>>◌,
}
use csi.State.Strings
use csi.State.Types.{Volume}
use csi.State.Store.{Store, get_volume_by_id, update_volume}
use csi.HostPath.Env.{Dict, lookup_or, Env}
use csi.HostPath.Requests.{
  VolumeCapability, is_block, is_mount, ControllerPublishRequest, ControllerExpandRequest,
  ControllerExpandResponse,
}
use csi.HostPath.Capabilities.{
  modify_volume, validate_controller_service_request, validate_volume_mutable_parameters,
}
use csi.HostPath.Core.{sum_volume_sizes, get_attach_count, enabled}
use csi.HostPath.Controller.{is_nil}

abbrev pub bool_eq : Bool → Bool → Bool
bool_eq a b = ite (Bool-discrete a b) true false

pub record CapacityResponse : Type 0 where
  pub available_capacity : ℤ
  pub maximum_volume_size : ℤ
  pub minimum_volume_size : ℤ

module _ {W : Type 0} (env : Env W) where
  -- The check of the attach limit against the number of attached volumes, and the update.
  attach_if_room : ControllerPublishRequest → Volume → ℤ → Exec (Store W) (Unit {0})
  attach_if_room req vol count = do
    fail_if (ltb_ℤ (pos 0) env.config.attach_limit && leb_ℤ env.config.attach_limit count)
        (status resource_exhausted)
    update_volume env.disk (record vol { attached = true; read_only_attach = req.readonly })

  publish_found : ControllerPublishRequest → (Error ⊎ Volume) → Exec (Store W) (Unit {0})
  unfolding attach_if_room
  publish_found req (inl _) = raise (status not_found)
  publish_found req (inr vol) =
      if vol.attached
      then fail_if (not (bool_eq req.readonly vol.read_only_attach)) (status already_exists)
      else (do count ← gets get_attach_count; attach_if_room req vol count)

  -- `ControllerPublishVolume`
  unfoldable pub controller_publish_volume : ControllerPublishRequest → Exec (Store W) (Unit {0})
  unfolding publish_found
  controller_publish_volume req = do
    fail_if (not env.config.enable_attach) (status unimplemented)
    fail_if (req.volume_id == "") (status invalid_argument)
    fail_if (req.node_id == "") (status invalid_argument)
    fail_if (is_nil req.volume_capability) (status invalid_argument)
    fail_if (not (req.node_id == env.config.node_id)) (status not_found)
    found ← attempt (get_volume_by_id req.volume_id)
    publish_found req found

  internal_error : (Error ⊎ Unit {0}) → Exec (Store W) (Unit {0})
  internal_error (inr _) = pure tt
  internal_error (inl _) = raise (status internal)

  unpublish_found : (Error ⊎ Volume) → Exec (Store W) (Unit {0})
  unfolding internal_error
  unpublish_found (inl _) = pure tt
  unpublish_found (inr vol) = do
    fail_if
        ((not (Strings.is_empty vol.published) || not (Strings.is_empty vol.staged))
          && env.config.check_volume_lifecycle)
        (status internal)
    stored ← attempt (update_volume env.disk (record vol { attached = false }))
    internal_error stored

  -- `ControllerUnpublishVolume`, of a volume and a node
  unfoldable pub controller_unpublish_volume : String → String → Exec (Store W) (Unit {0})
  unfolding unpublish_found
  controller_unpublish_volume volume_id node_id = do
    fail_if (not env.config.enable_attach) (status unimplemented)
    fail_if (volume_id == "") (status invalid_argument)
    fail_if (not (node_id == "") && not (node_id == env.config.node_id)) (status not_found)
    found ← attempt (get_volume_by_id volume_id)
    unpublish_found found

  grow : Volume → ℤ → Exec (Store W) ControllerExpandResponse
  grow vol capacity =
      if ltb_ℤ vol.vol_size capacity
      then (do
        update_volume env.disk (record vol { vol_size = capacity })
        pure (record { capacity_bytes = capacity; node_expansion_required = true }))
      else pure (record { capacity_bytes = vol.vol_size; node_expansion_required = true })

  expand_to : String → Option ℤ → Exec (Store W) ControllerExpandResponse
  unfolding grow
  expand_to vol_id none = raise (status invalid_argument)
  expand_to vol_id (some capacity) = do
    fail_if (ltb_ℤ env.config.max_volume_size capacity) (status out_of_range)
    vol ← get_volume_by_id vol_id
    grow vol capacity

  -- `ControllerExpandVolume`
  unfoldable pub controller_expand_volume :
      ControllerExpandRequest → Exec (Store W) ControllerExpandResponse
  unfolding expand_to
  controller_expand_volume req = do
    fail_if (not env.config.enable_volume_expansion) (status unimplemented)
    fail_if (req.volume_id == "") (status invalid_argument)
    expand_to req.volume_id req.capacity_range

  as_not_found : (Error ⊎ Volume) → Exec (Store W) (Unit {0})
  as_not_found (inl _) = raise (status not_found)
  as_not_found (inr _) = pure tt

  is_empty_dict : Dict String → Bool
  is_empty_dict [] = true
  is_empty_dict (_ ∷ _) = false

  -- `ControllerModifyVolume`, of a volume and the mutable parameters
  unfoldable pub controller_modify_volume : String → Dict String → Exec (Store W) (Unit {0})
  unfolding as_not_found is_empty_dict
  controller_modify_volume volume_id params = do
    lift (validate_controller_service_request env.config modify_volume)
    fail_if (volume_id == "") (status invalid_argument)
    fail_if (is_empty_dict params) (status invalid_argument)
    lift (validate_volume_mutable_parameters env.config params)
    found ← attempt (get_volume_by_id volume_id)
    as_not_found found

  -- The loop of `ValidateVolumeCapabilities`.
  each_has_kind : List VolumeCapability → Exec (Store W) (Unit {0})
  each_has_kind [] = pure tt
  each_has_kind (c ∷ cs) = do
    fail_if (not (is_mount c) && not (is_block c)) (status invalid_argument)
    each_has_kind cs

  no_capabilities : List VolumeCapability → Bool
  no_capabilities [] = true
  no_capabilities (_ ∷ _) = false

  -- `ValidateVolumeCapabilities`; the response repeats fields of the request.
  unfoldable pub validate_volume_capabilities :
      String → List VolumeCapability → Exec (Store W) (Unit {0})
  unfolding each_has_kind no_capabilities
  validate_volume_capabilities volume_id caps = do
    fail_if (volume_id == "") (status invalid_argument)
    fail_if (no_capabilities caps) (status invalid_argument)
    get_volume_by_id volume_id
    each_has_kind caps

  -- `GetCapacity`, of the parameters of the request
  unfoldable pub get_capacity : Dict String → Store W → CapacityResponse
  get_capacity parameters s =
      let kind = lookup_or "" "kind" parameters in
      let quantity = lookup_or (pos 0) kind env.config.capacity in
      let available =
        if enabled env.config.capacity
        then sub64 quantity (sum_volume_sizes kind s)
        else env.config.max_volume_size in
      record {
        available_capacity = available;
        maximum_volume_size =
            if ltb_ℤ available env.config.max_volume_size
            then available
            else env.config.max_volume_size;
        minimum_volume_size = pos 0;
      }
