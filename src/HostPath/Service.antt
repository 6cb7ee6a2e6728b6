-- ===== src/HostPath/Service.antt =====
-- The driver as a server: the gRPC methods that `pkg/hostpath` registers, one request after the other.
-- The methods take the mutex of the driver, so a schedule of concurrent requests is a list of requests.
pub mod Refines
use csi.Prelude.{String, Option, List, [], ◌∷◌}
use csi.Exec.{Exec, Result, ok, err, panicked, attempt, pure, lift, ◌>>=◌, ◌>>◌}
use csi.State.Store.{Store}
use csi.HostPath.Env.{Dict, Env}
use csi.HostPath.Requests.{
  VolumeCapability, CreateVolumeRequest, VolumeInfo, ControllerPublishRequest,
  ControllerExpandRequest, ControllerExpandResponse, NodePublishRequest, NodeStageRequest,
  NodeExpandRequest,
}
use csi.HostPath.Controller.{create_volume, delete_volume}
use csi.HostPath.Attach.{
  controller_publish_volume, controller_unpublish_volume, controller_expand_volume,
  controller_modify_volume, validate_volume_capabilities, CapacityResponse, get_capacity,
}
use csi.HostPath.Snapshots.{
  SnapshotInfo, ListSnapshotsRequest, ListSnapshotsResponse, create_snapshot,
  delete_hostpath_snapshot,
}
use csi.HostPath.Listing.{list_snapshots}
use csi.HostPath.Groups.{
  GroupInfo, create_volume_group_snapshot, delete_volume_group_snapshot, get_volume_group_snapshot,
}
use csi.HostPath.Publish.{node_publish_volume, node_unpublish_volume}
use csi.HostPath.Stage.{node_stage_volume, node_unstage_volume, node_expand_volume}
use csi.HostPath.Capabilities.{Capability, get_controller_service_capabilities}
use csi.HostPath.Volumes.{VolumeEntry, ListVolumesRequest, list_volumes, controller_get_volume}
use csi.HostPath.NodeInfo.{
  VolumeStats, NodeInfoResponse, NodeCapability, node_get_info, node_get_capabilities,
  node_get_volume_stats,
}
use csi.HostPath.Identity.{
  PluginInfo, PluginCapability, GroupCapability, get_plugin_info, get_plugin_capabilities,
  group_controller_get_capabilities,
}

pub data Request : Type 0 where
  create_volume_request : CreateVolumeRequest → Request
  delete_volume_request : String → Request
  controller_publish_request : ControllerPublishRequest → Request
  controller_unpublish_request : String → String → Request
  controller_expand_request : ControllerExpandRequest → Request
  controller_modify_request : String → Dict String → Request
  validate_capabilities_request : String → List VolumeCapability → Request
  get_capacity_request : Dict String → Request
  create_snapshot_request : String → String → Request
  delete_snapshot_request : String → Request
  list_snapshots_request : ListSnapshotsRequest → Request
  node_stage_request : NodeStageRequest → Request
  node_unstage_request : String → String → Request
  node_publish_request : NodePublishRequest → Request
  node_unpublish_request : String → String → Request
  node_expand_request : NodeExpandRequest → Request
  create_group_request : String → List String → Request
  delete_group_request : String → Request
  get_group_request : String → List String → Request
  list_volumes_request : ListVolumesRequest → Request
  get_volume_request : String → Request
  volume_stats_request : String → String → Request
  plugin_info_request probe_request plugin_capabilities_request : Request
  controller_capabilities_request group_capabilities_request : Request
  node_info_request node_capabilities_request : Request

pub data Response : Type 0 where
  volume_response : VolumeInfo → Response
  expand_response : ControllerExpandResponse → Response
  capacity_response : CapacityResponse → Response
  snapshot_response : SnapshotInfo → Response
  snapshots_response : ListSnapshotsResponse → Response
  group_response : GroupInfo → Response
  volumes_response : List VolumeEntry → Response
  condition_response : VolumeEntry → Response
  stats_response : VolumeStats → Response
  plugin_response : PluginInfo → Response
  plugin_capabilities_response : List PluginCapability → Response
  controller_capabilities_response : List Capability → Response
  group_capabilities_response : List GroupCapability → Response
  node_info_response : NodeInfoResponse → Response
  node_capabilities_response : List NodeCapability → Response
  empty_response : Response

module _ {W : Type 0} (env : Env W) where
  abbrev answer : {A : Type 0} → (A → Response) → Exec (Store W) A → Exec (Store W) Response
  answer f m = m >>= λ a s. (ok (f a), s)

  abbrev nothing_more : Unit {0} → Response
  nothing_more _ = empty_response

  unfoldable pub serve : Request → Exec (Store W) Response
  serve (create_volume_request req) = answer volume_response (create_volume env req)
  serve (delete_volume_request volume_id) = answer nothing_more (delete_volume env volume_id)
  serve (controller_publish_request req) = answer nothing_more (controller_publish_volume env req)
  serve (controller_unpublish_request volume_id node_id) =
      answer nothing_more (controller_unpublish_volume env volume_id node_id)
  serve (controller_expand_request req) = answer expand_response (controller_expand_volume env req)
  serve (controller_modify_request volume_id params) =
      answer nothing_more (controller_modify_volume env volume_id params)
  serve (validate_capabilities_request volume_id caps) =
      answer nothing_more (validate_volume_capabilities env volume_id caps)
  serve (get_capacity_request params) =
      answer capacity_response λ s. (ok (get_capacity env params s), s)
  serve (create_snapshot_request name volume_id) =
      answer snapshot_response (create_snapshot env name volume_id)
  serve (delete_snapshot_request snapshot_id) =
      answer nothing_more (delete_hostpath_snapshot env snapshot_id)
  serve (list_snapshots_request req) = answer snapshots_response λ s. (list_snapshots env req s, s)
  serve (node_stage_request req) = answer nothing_more (node_stage_volume env req)
  serve (node_unstage_request volume_id path) =
      answer nothing_more (node_unstage_volume env volume_id path)
  serve (node_publish_request req) = answer nothing_more (node_publish_volume env req)
  serve (node_unpublish_request volume_id path) =
      answer nothing_more (node_unpublish_volume env volume_id path)
  serve (node_expand_request req) = answer nothing_more (node_expand_volume env req)
  serve (create_group_request name volume_ids) =
      answer group_response (create_volume_group_snapshot env name volume_ids)
  serve (delete_group_request k) = answer nothing_more (delete_volume_group_snapshot env k)
  serve (get_group_request k ids) = answer group_response (get_volume_group_snapshot env k ids)
  serve (list_volumes_request req) = answer volumes_response (list_volumes env req)
  serve (get_volume_request volume_id) =
      answer condition_response (controller_get_volume env volume_id)
  serve (volume_stats_request volume_id path) =
      answer stats_response (node_get_volume_stats env volume_id path)
  serve plugin_info_request = answer plugin_response (lift (get_plugin_info env.config))
  serve probe_request = pure empty_response
  serve plugin_capabilities_request =
      pure (plugin_capabilities_response (get_plugin_capabilities env.config))
  serve controller_capabilities_request =
      pure (controller_capabilities_response (get_controller_service_capabilities env.config))
  serve group_capabilities_request =
      pure (group_capabilities_response group_controller_get_capabilities)
  serve node_info_request = pure (node_info_response (node_get_info env.config))
  serve node_capabilities_request =
      pure (node_capabilities_response (node_get_capabilities env.config))

  -- The state after the requests, whatever each of them answered.
  unfoldable pub serve_all : List Request → Store W → Store W
  serve_all [] s = s
  serve_all (req ∷ reqs) s = serve_all reqs (serve req s).1
