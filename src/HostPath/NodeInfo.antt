-- ===== src/HostPath/NodeInfo.antt =====
-- `NodeGetInfo`, `NodeGetCapabilities` and `NodeGetVolumeStats` of pkg/hostpath/nodeserver.go.
use csi.Prelude.{
  String, Bool, not, ◌&&◌, Option, none, some, List, [], ◌∷◌, ◌++◌, ◌⊎◌, inl, inr, ◌==◌,
  if◌then◌else◌,
}
use csi.Prelude.Int.{ℤ, pos, ltb_ℤ}
use csi.Exec.{
  Exec, OsError, status, invalid_argument, not_found, formatted, pure, raise, fail_if, ◌>>=◌, ◌>>◌,
}
use csi.State.Store.{Store, get_volume_by_id}
use csi.HostPath.Env.{Dict, Config, Env, FileMode, FsInfo, call}
use csi.HostPath.Health.{Message, do_health_check_in_node_side}
use csi.HostPath.Volumes.{VolumeCondition}

-- A node info whose topology is absent or present.
pub record NodeInfoResponse : Type 0 where
  pub node_id : String
  pub max_volumes_per_node : ℤ
  pub accessible_topology : Option (Dict String)

-- `NodeGetInfo`
unfoldable pub node_get_info : Config → NodeInfoResponse
node_get_info cfg = record {
  node_id = cfg.node_id;
  max_volumes_per_node =
      if ltb_ℤ (pos 0) cfg.attach_limit then cfg.attach_limit else cfg.max_volumes_per_node;
  accessible_topology =
      if cfg.enable_topology then some (("topology.hostpath.csi/node", cfg.node_id) ∷ []) else none;
}

-- csi.NodeServiceCapability_RPC_Type, as far as the driver announces it
pub data NodeCapability : Type 0 where
  stage_unstage_volume volume_condition get_volume_stats : NodeCapability
  single_node_multi_writer expand_volume : NodeCapability

-- `NodeGetCapabilities`
unfoldable pub node_get_capabilities : Config → List NodeCapability
node_get_capabilities cfg =
    (stage_unstage_volume ∷ volume_condition ∷ get_volume_stats ∷ single_node_multi_writer ∷ [])
    ++ (if cfg.enable_volume_expansion && not cfg.disable_node_expansion
        then expand_volume ∷ []
        else [])

pub data UsageUnit : Type 0 where
  bytes inodes : UsageUnit

pub record VolumeUsage : Type 0 where
  pub available : ℤ
  pub used : ℤ
  pub total : ℤ
  pub unit : UsageUnit

pub record VolumeStats : Type 0 where
  pub usage : List VolumeUsage
  pub condition : VolumeCondition

unfoldable pub stats_of : FsInfo → Bool × Message → VolumeStats
stats_of info (healthy, text) = record {
  usage =
      record { available = info.available; used = info.used; total = info.capacity; unit = bytes }
      ∷ record {
        available = info.inodes_free;
        used = info.inodes_used;
        total = info.inodes;
        unit = inodes;
      }
      ∷ [];
  condition = record { abnormal = not healthy; message = text };
}

module _ {W : Type 0} (env : Env W) where
  unfoldable pub or_not_found : (OsError ⊎ FileMode) → Exec (Store W) (Unit {0})
  or_not_found (inl _) = raise (status not_found)
  or_not_found (inr _) = pure tt

  unfoldable pub or_formatted : (OsError ⊎ FsInfo) → Exec (Store W) FsInfo
  or_formatted (inl _) = raise formatted
  or_formatted (inr info) = pure info

  -- `NodeGetVolumeStats`
  unfoldable pub node_get_volume_stats : String → String → Exec (Store W) VolumeStats
  unfolding or_not_found or_formatted stats_of
  node_get_volume_stats volume_id volume_path = do
    fail_if (volume_id == "") (status invalid_argument)
    fail_if (volume_path == "") (status invalid_argument)
    get_volume_by_id volume_id
    found ← call (env.stat volume_path)
    or_not_found found
    verdict ← do_health_check_in_node_side env volume_id
    out ← call (env.probes.fs_info volume_path)
    info ← or_formatted out
    pure (stats_of info verdict)
