-- ===== src/HostPath/Capabilities.antt =====
-- The capabilities that the controller service announces, and the checks of requests against them
-- (pkg/hostpath/controllerserver.go).
use csi.Prelude.{
  String, Bool, true, false, not, ◌&&◌, List, [], ◌∷◌, ◌++◌, ◌==◌, ite, if◌then◌else◌,
}
use csi.Exec.{Result, ok, err, status, invalid_argument}
use csi.HostPath.Env.{Dict, Config}

-- csi.ControllerServiceCapability_RPC_Type
pub data Capability : Type 0 where
  unknown create_delete_volume publish_unpublish_volume list_volumes get_capacity : Capability
  create_delete_snapshot list_snapshots clone_volume publish_readonly expand_volume : Capability
  list_volumes_published_nodes volume_condition get_volume single_node_multi_writer : Capability
  modify_volume : Capability

unfoldable pub Capability-discrete : Discrete Capability
Capability-discrete = hlevel

abbrev when : Bool → Capability → List Capability
when b c = if b then c ∷ [] else []

-- `getControllerServiceCapabilities`
unfoldable pub get_controller_service_capabilities : Config → List Capability
get_controller_service_capabilities cfg =
    if cfg.ephemeral
    then []
    else create_delete_volume
      ∷ get_volume
      ∷ get_capacity
      ∷ create_delete_snapshot
      ∷ list_snapshots
      ∷ list_volumes
      ∷ clone_volume
      ∷ volume_condition
      ∷ single_node_multi_writer
      ∷ list_volumes_published_nodes
      ∷ publish_readonly
      ∷ (when (cfg.enable_volume_expansion && not cfg.disable_controller_expansion) expand_volume
          ++ (when cfg.enable_attach publish_unpublish_volume
              ++ when cfg.enable_controller_modify_volume modify_volume))

offers : Capability → List Capability → Result (Unit {0})
offers c [] = err (status invalid_argument)
offers c (d ∷ ds) = if ite (Capability-discrete c d) true false then ok tt else offers c ds

-- `validateControllerServiceRequest`
unfoldable pub validate_controller_service_request : Config → Capability → Result (Unit {0})
unfolding offers
validate_controller_service_request cfg unknown = ok tt
validate_controller_service_request cfg c = offers c (get_controller_service_capabilities cfg)

unfoldable pub contains : String → List String → Bool
contains k [] = false
contains k (j ∷ js) = if j == k then true else contains k js

-- The loop of `validateVolumeMutableParameters`: the keys that are not accepted.
unsupported : List String → Dict String → List String
unsupported accepts [] = []
unsupported accepts ((k, _) ∷ rest) =
    let others = unsupported accepts rest in if contains k accepts then others else k ∷ others

refuse_any : List String → Result (Unit {0})
refuse_any [] = ok tt
refuse_any (_ ∷ _) = err (status invalid_argument)

unfoldable pub validate_volume_mutable_parameters : Config → Dict String → Result (Unit {0})
unfolding unsupported refuse_any
validate_volume_mutable_parameters cfg params = elim cfg.accepted_mutable_parameter_names [
  | [] ↦ ok tt
  | a ∷ more ↦ refuse_any (unsupported (a ∷ more) params)
]
