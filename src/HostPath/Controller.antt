-- ===== src/HostPath/Controller.antt =====
-- The methods on volumes of pkg/hostpath/controllerserver.go.
pub mod Refines
pub mod Checks
pub mod Success
pub mod Deletion
use csi.Prelude.{
  String, Bool, true, false, not, ◌&&◌, ◌||◌, Option, none, some, List, [], ◌∷◌, ◌⊎◌, inl, inr,
  ◌==◌, if◌then◌else◌,
}
use csi.Prelude.Int.{ℤ, pos, ltb_ℤ, leb_ℤ, sub64}
use csi.Exec.{
  Exec, Error, Result, ok, err, status, formatted, already_exists, invalid_argument, internal,
  not_found, out_of_range, resource_exhausted, unimplemented, pure, raise, gets, lift, fail_if,
  attempt, ◌>>=◌, ◌>>◌,
}
use csi.State.Strings
use csi.State.Types.{AccessType, mount_access, block_access, Volume}
use csi.State.Store.{Store, get_volume_by_id, get_volume_by_name, update_volume}
use csi.HostPath.Env.{Dict, lookup_or, Env, call, get_volume_path}
use csi.HostPath.Requests.{
  VolumeCapability, is_block, is_mount, no_kind, ContentSource, from_snapshot, from_volume,
  no_source_type, CreateVolumeRequest, VolumeInfo, required_bytes, ControllerPublishRequest,
  ControllerExpandRequest, ControllerExpandResponse,
}
use csi.HostPath.Capabilities.{
  create_delete_volume, modify_volume, validate_controller_service_request,
  validate_volume_mutable_parameters,
}
use csi.HostPath.Core.{
  create_hostpath_volume, delete_hostpath_volume, sum_volume_sizes, get_attach_count, enabled,
}
use csi.HostPath.Populate.{load_from_snapshot, load_from_volume}

abbrev pub is_nil : {A : Type 0} → Option A → Bool
is_nil none = true
is_nil (some _) = false

-- The loops over the capabilities that were asked for.
asks_block : List VolumeCapability → Bool
asks_block [] = false
asks_block (c ∷ cs) = is_block c || asks_block cs

asks_mount : List VolumeCapability → Bool
asks_mount [] = false
asks_mount (c ∷ cs) = is_mount c || asks_mount cs

-- The access type that a request asks for, or the error.
unfoldable pub requested_access_type : Option (List VolumeCapability) → Result AccessType
unfolding asks_block asks_mount
requested_access_type none = err (status invalid_argument)
requested_access_type (some caps) =
    if asks_block caps && asks_mount caps
    then err (status invalid_argument)
    else if asks_block caps
    then ok block_access
    else ok mount_access

-- Whether an existing volume fits the content source of a request.
unfoldable pub check_content_source : Volume → Option ContentSource → Result (Unit {0})
check_content_source ex none = ok tt
check_content_source ex (some (from_snapshot none)) = ok tt
check_content_source ex (some (from_snapshot (some id))) =
    if not (ex.parent_snap_id == "") && not (ex.parent_snap_id == id)
    then err (status already_exists)
    else ok tt
check_content_source ex (some (from_volume none)) = ok tt
check_content_source ex (some (from_volume (some id))) =
    if not (ex.parent_vol_id == id) then err (status already_exists) else ok tt
check_content_source ex (some no_source_type) = err (status invalid_argument)

module _ {W : Type 0} (env : Env W) where
  abbrev topologies : List (Dict String)
  topologies =
      if env.config.enable_topology
      then (("topology.hostpath.csi/node", env.config.node_id) ∷ []) ∷ []
      else []

  -- The content of a new volume. The source also notes the parent, but in a copy of the volume that is
  -- dropped at the end of the call: the volume in the state keeps empty parents.
  unfoldable pub populate : ℤ → AccessType → String → ContentSource → Exec (Store W) (Unit {0})
  populate cap access_type path (from_snapshot none) = pure tt
  populate cap access_type path (from_snapshot (some id)) =
      load_from_snapshot env cap id path access_type
  populate cap access_type path (from_volume none) = pure tt
  populate cap access_type path (from_volume (some id)) =
      load_from_volume env cap id path access_type
  populate cap access_type path no_source_type = raise (status invalid_argument)

  -- A volume that could not be filled is deleted again; an error of that is only logged.
  undo_on_error : String → (Error ⊎ Unit {0}) → Exec (Store W) (Unit {0})
  undo_on_error volume_id (inr _) = pure tt
  undo_on_error volume_id (inl e) = do attempt (delete_hostpath_volume env volume_id); raise e

  unfoldable pub populate_from :
      CreateVolumeRequest → AccessType → String → Exec (Store W) (Unit {0})
  unfolding populate undo_on_error
  populate_from req access_type volume_id = elim req.volume_content_source [
    | none ↦ pure tt
    | some source ↦ do
      let path = get_volume_path env volume_id
      filled ← attempt (populate (required_bytes req.capacity_range) access_type path source)
      undo_on_error volume_id filled
  ]

  abbrev volume_info : CreateVolumeRequest → String → ℤ → VolumeInfo
  volume_info req id bytes = record {
    volume_id = id;
    capacity_bytes = bytes;
    volume_context = req.parameters;
    content_source = req.volume_content_source;
    accessible_topology = topologies;
  }

  -- The part of `CreateVolume` after the lookup of the name.
  pub create_or_reuse :
      CreateVolumeRequest → AccessType → (Error ⊎ Volume) → Exec (Store W) VolumeInfo
  unfolding populate_from
  create_or_reuse req access_type (inr ex) = do
    fail_if (ltb_ℤ ex.vol_size (required_bytes req.capacity_range)) (status already_exists)
    lift (check_content_source ex req.volume_content_source)
    pure (volume_info req ex.vol_id ex.vol_size)
  create_or_reuse req access_type (inl _) = do
    let capacity = required_bytes req.capacity_range
    volume_id ← call env.new_uuid
    let kind = lookup_or "" "kind" req.parameters
    create_hostpath_volume env volume_id req.name capacity access_type false kind
    populate_from req access_type volume_id
    pure (volume_info req volume_id capacity)

  validate_mutable_parameters : Dict String → Result (Unit {0})
  validate_mutable_parameters [] = ok tt
  validate_mutable_parameters (p ∷ ps) =
      elim (validate_controller_service_request env.config modify_volume) [
        | ok _ ↦ validate_volume_mutable_parameters env.config (p ∷ ps)
        | err e ↦ err e
        | Result.panicked ↦ Result.panicked
      ]

  -- `CreateVolume`
  unfoldable pub create_volume : CreateVolumeRequest → Exec (Store W) VolumeInfo
  unfolding create_or_reuse validate_mutable_parameters
  create_volume req = do
    lift (validate_controller_service_request env.config create_delete_volume)
    lift (validate_mutable_parameters req.mutable_parameters)
    fail_if (req.name == "") (status invalid_argument)
    access_type ← lift (requested_access_type req.volume_capabilities)
    found ← attempt (get_volume_by_name req.name)
    create_or_reuse req access_type found

  -- A volume that is attached, staged or published.
  abbrev pub in_use : Volume → Bool
  in_use v = v.attached || (not (Strings.is_empty v.published) || not (Strings.is_empty v.staged))

  formatted_error : (Error ⊎ Unit {0}) → Exec (Store W) (Unit {0})
  formatted_error (inr _) = pure tt
  formatted_error (inl _) = raise formatted

  delete_if_unused : String → (Error ⊎ Volume) → Exec (Store W) (Unit {0})
  unfolding formatted_error
  delete_if_unused vol_id (inl _) = pure tt
  delete_if_unused vol_id (inr vol) = do
    fail_if (in_use vol && env.config.check_volume_lifecycle) (status internal)
    deleted ← attempt (delete_hostpath_volume env vol_id)
    formatted_error deleted

  -- `DeleteVolume`
  unfoldable pub delete_volume : String → Exec (Store W) (Unit {0})
  unfolding delete_if_unused
  delete_volume vol_id = do
    fail_if (vol_id == "") (status invalid_argument)
    lift (validate_controller_service_request env.config create_delete_volume)
    found ← attempt (get_volume_by_id vol_id)
    delete_if_unused vol_id found
