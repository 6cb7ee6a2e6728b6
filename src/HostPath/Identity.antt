-- ===== src/HostPath/Identity.antt =====
-- The identity service (pkg/hostpath/identityserver.go) and the answers about capabilities that only read
-- the configuration.
use csi.Prelude.{String, List, [], ◌∷◌, ◌++◌, ◌==◌, if◌then◌else◌}
use csi.Exec.{Result, ok, err, status, unavailable, invalid_argument}
use csi.HostPath.Env.{Config}

pub record PluginInfo : Type 0 where
  pub name : String
  pub vendor_version : String

-- `GetPluginInfo`
unfoldable pub get_plugin_info : Config → Result PluginInfo
get_plugin_info cfg =
    if cfg.driver_name == ""
    then err (status unavailable)
    else if cfg.vendor_version == ""
    then err (status unavailable)
    else ok (record { name = cfg.driver_name; vendor_version = cfg.vendor_version })

-- csi.PluginCapability_Service_Type, as far as the driver announces it
pub data PluginCapability : Type 0 where
  controller_service group_controller_service volume_accessibility_constraints : PluginCapability

-- `GetPluginCapabilities`
unfoldable pub get_plugin_capabilities : Config → List PluginCapability
get_plugin_capabilities cfg =
    (controller_service ∷ group_controller_service ∷ [])
    ++ (if cfg.enable_topology then volume_accessibility_constraints ∷ [] else [])

-- csi.GroupControllerServiceCapability_RPC_Type; another number is a later version's.
pub data GroupCapability : Type 0 where
  unknown create_delete_get_volume_group_snapshot other_capability : GroupCapability

-- `GroupControllerGetCapabilities`
abbrev pub group_controller_get_capabilities : List GroupCapability
group_controller_get_capabilities = create_delete_get_volume_group_snapshot ∷ []

-- `validateGroupControllerServiceRequest`
unfoldable pub validate_group_controller_service_request : GroupCapability → Result (Unit {0})
validate_group_controller_service_request unknown = ok tt
validate_group_controller_service_request create_delete_get_volume_group_snapshot = ok tt
validate_group_controller_service_request other_capability = err (status invalid_argument)
