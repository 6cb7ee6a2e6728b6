-- ===== src/Tests/Requests.antt =====
-- The methods of the driver, on concrete inputs.
use csi.Prelude.{inl, ◌≡◌, ◌≢◌, refl, false, none, some, [], ◌∷◌, String-discrete, arith}
use csi.Prelude.Int.{pos, ◌+ℤ◌, add64, wrap64}
use csi.Prelude.Decimal.{decimal, decimal_ℤ}
use csi.Xfs.Units.{convert_bytes_to_string, float64, scale}
use csi.Exec.{ok, err, status, already_exists}
use csi.State.Types.{AccessType-discrete}
use csi.State.Strings
use csi.State.Table.{find, upsert}
use csi.State.Store.{Store, get_volumes, get_volume_by_id, get_volume_by_name, update_volume, dump}
use csi.HostPath.Capabilities.{
  Capability-discrete, validate_controller_service_request, get_controller_service_capabilities,
}
use csi.HostPath.Populate.{load_from_volume}
use csi.HostPath.Env.{lookup_or, call, get_volume_path}
use csi.HostPath.Requests.{
  VolumeCapability, mount_kind, from_volume, CreateVolumeRequest, VolumeInfo,
  ControllerPublishRequest, NodeStageRequest, NodePublishRequest,
}
use csi.HostPath.Leads.{volumes_of}
use csi.HostPath.Lifecycle.{Reach}
use csi.HostPath.Lifecycle.Invariants.{IsValid}
use csi.HostPath.Core.{
  sum_sizes, check_capacity, count_attached, create_hostpath_volume, make_storage, pick_kind,
}
use csi.HostPath.Controller.{
  create_volume, delete_volume, populate_from, populate, requested_access_type,
}
use csi.HostPath.Controller.Success.{Stored, create_volume-Stored, create_volume-retry, clone-retry}
use csi.HostPath.Controller.Deletion.{delete_volume-in_use}
use csi.HostPath.Service.{
  create_volume_request, delete_volume_request, node_stage_request, node_publish_request, serve,
  serve_all,
}
use csi.HostPath.Service.Refines.{serve-Reach, serve_all-IsValid}
use csi.Tests.{World, differ, a_volume, config, env, one_volume}

abbrev pub mounted : VolumeCapability
mounted = record { access_type = mount_kind; access_mode = none }

abbrev create_data : CreateVolumeRequest
create_data = record {
  name = "logs";
  capacity_range = some (pos 2048);
  volume_capabilities = some (mounted ∷ []);
  parameters = [];
  volume_content_source = none;
  mutable_parameters = [];
}

abbrev clone_data : CreateVolumeRequest
clone_data = record create_data {
  capacity_range = some (pos 1024);
  volume_content_source = some (from_volume (some "v1"));
}

abbrev pub stage_data : NodeStageRequest
stage_data = record {
  volume_id = "v1";
  staging_target_path = "/stage";
  volume_capability = some mounted;
}

abbrev pub attach_data : ControllerPublishRequest
attach_data = record {
  volume_id = "v1";
  node_id = "node-1";
  volume_capability = some mounted;
  readonly = false;
}

abbrev created : VolumeInfo
created = record {
  volume_id = "v2";
  capacity_bytes = pos 2048;
  volume_context = [];
  content_source = none;
  accessible_topology = (("topology.hostpath.csi/node", "node-1") ∷ []) ∷ [];
}

abbrev cloned : VolumeInfo
cloned = record created {
  capacity_bytes = pos 1024;
  content_source = some (from_volume (some "v1"));
}

one_volume-IsValid : IsValid config (volumes_of one_volume)
unfolding find count_attached
one_volume-IsValid = record {
  ids = (refl, tt);
  names = (refl, tt);
  sound = (
    record { size = ground arith; one_stage = ground arith; staged_attached = λ _ _ _. refl },
    tt,
  );
  within_limit = λ _. ground arith;
}

serve_all-IsValid_example : IsValid config (
    volumes_of (
      serve_all env
        (create_volume_request create_data
          ∷ node_stage_request stage_data
          ∷ delete_volume_request "v2"
          ∷ [])
        one_volume))
serve_all-IsValid_example =
    serve_all-IsValid env
      (create_volume_request create_data
        ∷ node_stage_request stage_data
        ∷ delete_volume_request "v2"
        ∷ [])
      one_volume one_volume-IsValid

-- A volume that is attached and staged, and a request of a pod for it
abbrev one_staged : Store World
one_staged = record one_volume {
  resources = record one_volume.resources {
    volumes = record a_volume { staged = "/stage" ∷ [] } ∷ [];
  };
}

abbrev publish_data : NodePublishRequest
publish_data = record {
  volume_id = "v1";
  target_path = "/pods/a";
  staging_target_path = "/stage";
  volume_capability = some mounted;
  readonly = false;
  volume_context = [];
}

serve-Reach_example :
    Reach config false
      (volumes_of one_staged)
      (volumes_of (serve env (node_publish_request publish_data) one_staged).1)
unfolding lookup_or String-discrete
serve-Reach_example = serve-Reach env (node_publish_request publish_data) one_staged

creates : (create_volume env create_data one_volume).0 ≡ ok created
unfolding create_volume String-discrete validate_controller_service_request
    get_controller_service_capabilities Capability-discrete find call lookup_or add64 wrap64 ◌+ℤ◌
    sum_sizes get_volumes update_volume dump upsert get_volume_by_id get_volume_by_name
    requested_access_type create_hostpath_volume check_capacity make_storage pick_kind
    get_volume_path populate_from populate load_from_volume decimal decimal_ℤ
    convert_bytes_to_string float64 scale
creates = refl

create_volume-Stored_example :
    Stored env create_data created
      (volumes_of one_volume)
      (volumes_of (create_volume env create_data one_volume).1)
unfolding find String-discrete
create_volume-Stored_example = create_volume-Stored env create_data one_volume created refl creates

create_volume-retry_example :
    let t = (create_volume env create_data one_volume).1 in
    create_volume env create_data t ≡ (ok created, t)
unfolding find String-discrete
create_volume-retry_example =
    create_volume-retry env create_data one_volume created refl refl creates

clones : (create_volume env clone_data one_volume).0 ≡ ok cloned
unfolding create_volume String-discrete validate_controller_service_request
    get_controller_service_capabilities Capability-discrete find call lookup_or add64 wrap64 ◌+ℤ◌
    sum_sizes get_volumes update_volume dump upsert get_volume_by_id get_volume_by_name
    requested_access_type create_hostpath_volume check_capacity make_storage pick_kind
    get_volume_path populate_from populate load_from_volume decimal decimal_ℤ
    convert_bytes_to_string float64 scale AccessType-discrete
clones = refl

clone-retry_example :
    let t = (create_volume env clone_data one_volume).1 in
    create_volume env clone_data t ≡ (err (status already_exists), t)
unfolding find String-discrete
clone-retry_example =
    clone-retry env clone_data "v1" one_volume cloned refl refl (differ "v1" "" refl) clones

delete_volume-in_use_example :
    ((delete_volume env "v1" one_volume).0 ≢ ok tt)
    × ((delete_volume env "v1" one_volume).1 ≡ one_volume)
unfolding find String-discrete Strings.is_empty
delete_volume-in_use_example =
    delete_volume-in_use env "v1" one_volume a_volume refl (inl refl) refl
