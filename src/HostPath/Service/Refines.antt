-- ===== src/HostPath/Service/Refines.antt =====
-- The server refines the life cycle of volumes and keeps its invariant.
use csi.Prelude.{◌≡◌, refl, subst, Bool, true, false, ◌==◌, if◌then◌else◌, arith, List, [], ◌∷◌}
use csi.Exec.{Exec, ok, pure}
use csi.State.Types.{Volume}
use csi.State.Store.{Store}
use csi.HostPath.Env.{Config, lookup_or, Env}
use csi.HostPath.Leads.{volumes_of, Leads, Frames, Leads-Frames, Frames-lift, Frames-pure}
use csi.HostPath.Lifecycle.{Reach, here}
use csi.HostPath.Lifecycle.Invariants.{IsValid, Reach-IsValid}
use csi.HostPath.Lifecycle.Rules.{Reach-bind}
use csi.HostPath.Controller.Refines as Controller
use csi.HostPath.Attach.Refines as Attach
use csi.HostPath.Stage.Refines as Stage
use csi.HostPath.Publish.Refines as Publish
use csi.HostPath.Requests.{NodePublishRequest}
use csi.HostPath.Publish.{is_ephemeral, node_publish_volume}
use csi.HostPath.Attach.{get_capacity}
use csi.HostPath.Listing.{list_snapshots}
use csi.HostPath.Groups.Frames.{Frames-create_group, Frames-delete_group, Frames-get_group}
use csi.HostPath.Snapshots.Frames.{Frames-create_snapshot, Frames-delete_snapshot_request}
use csi.HostPath.Identity.{get_plugin_info}
use csi.HostPath.Volumes.Frames.{
  Frames-list_volumes, Frames-controller_get_volume, Frames-node_get_volume_stats,
}
use csi.HostPath.Service.{
  Request, create_volume_request, delete_volume_request, controller_publish_request,
  controller_unpublish_request, controller_expand_request, controller_modify_request,
  validate_capabilities_request, get_capacity_request, create_snapshot_request,
  delete_snapshot_request, list_snapshots_request, node_stage_request, node_unstage_request,
  node_publish_request, node_unpublish_request, node_expand_request, create_group_request,
  delete_group_request, get_group_request, list_volumes_request, get_volume_request,
  volume_stats_request, plugin_info_request, probe_request, plugin_capabilities_request,
  controller_capabilities_request, group_capabilities_request, node_info_request,
  node_capabilities_request, Response, capacity_response, snapshots_response, answer, serve,
  serve_all,
}

-- Whether a request asks for an ephemeral volume: it is a NodePublishVolume, and its volume context or, where
-- that is silent, the driver says so.
abbrev pub asks_ephemeral : Config → Request → Bool
asks_ephemeral cfg (node_publish_request req) =
    let flag = lookup_or "" "csi.storage.k8s.io/ephemeral" req.volume_context in
    if flag == "true" then true else if flag == "" then cfg.ephemeral else false
asks_ephemeral cfg _ = false

module _ {W : Type 0} (env : Env W) where
  answer-Reach :
      {A : Type 0} {eph : Bool} (vs : List Volume) (f : A → Response) (m : Exec (Store W) A)
      → Leads vs (Reach env.config eph vs) m
      → Leads vs (Reach env.config eph vs) (answer env f m)
  answer-Reach vs f m h = Reach-bind m _ h λ a us. Leads-Frames _ _ (Frames-lift (ok (f a))) here

  answer-Frames :
      {A : Type 0} {eph : Bool} (vs : List Volume) (f : A → Response) (m : Exec (Store W) A)
      → Frames m
      → Leads vs (Reach env.config eph vs) (answer env f m)
  answer-Frames vs f m h = answer-Reach vs f m (Leads-Frames _ m h here)

  unchanged :
      {eph : Bool} (vs : List Volume) (r : Response)
      → Leads vs (Reach env.config eph vs) (pure {S = Store W} r)
  unchanged vs r = Leads-Frames _ _ (Frames-pure r) here

  asked :
      (req : NodePublishRequest)
      → is_ephemeral env req ≡ asks_ephemeral env.config (node_publish_request req)
  unfolding is_ephemeral
  asked req = ground arith

  serve-Leads :
      (vs : List Volume) (req : Request)
      → Leads vs (Reach env.config (asks_ephemeral env.config req) vs) (serve env req)
  unfolding serve
  serve-Leads vs (create_volume_request req) =
      answer-Reach vs _ _ (Controller.create-Reach env vs req)
  serve-Leads vs (delete_volume_request k) = answer-Reach vs _ _ (Controller.delete-Reach env vs k)
  serve-Leads vs (controller_publish_request req) =
      answer-Reach vs _ _ (Attach.publish-Reach env vs req)
  serve-Leads vs (controller_unpublish_request k node_id) =
      answer-Reach vs _ _ (Attach.unpublish-Reach env vs k node_id)
  serve-Leads vs (controller_expand_request req) =
      answer-Reach vs _ _ (Attach.expand-Reach env vs req)
  serve-Leads vs (controller_modify_request k params) =
      answer-Frames vs _ _ (Attach.Frames-modify env vs k params)
  serve-Leads vs (validate_capabilities_request k caps) =
      answer-Frames vs _ _ (Attach.Frames-validate env vs k caps)
  serve-Leads vs (get_capacity_request params) =
      answer-Frames vs capacity_response (λ s. (ok (get_capacity env params s), s))
        record { at = λ s. refl }
  serve-Leads vs (create_snapshot_request name k) =
      answer-Frames vs _ _ (Frames-create_snapshot env name k)
  serve-Leads vs (delete_snapshot_request k) =
      answer-Frames vs _ _ (Frames-delete_snapshot_request env k)
  serve-Leads vs (list_snapshots_request req) =
      answer-Frames vs snapshots_response (λ s. (list_snapshots env req s, s))
        record { at = λ s. refl }
  serve-Leads vs (node_stage_request req) = answer-Reach vs _ _ (Stage.stage-Reach env vs req)
  serve-Leads vs (node_unstage_request k path) =
      answer-Reach vs _ _ (Stage.unstage-Reach env vs k path)
  serve-Leads vs (node_publish_request req) = answer-Reach vs _ _ (
      subst (λ b. Leads vs (Reach env.config b vs) (node_publish_volume env req)) (asked req)
        (Publish.publish-Reach env vs req))
  serve-Leads vs (node_unpublish_request k path) =
      answer-Reach vs _ _ (Publish.unpublish-Reach env vs k path)
  serve-Leads vs (node_expand_request req) =
      answer-Frames vs _ _ (Stage.Frames-node_expand_volume env vs req)
  serve-Leads vs (create_group_request name ids) =
      answer-Frames vs _ _ (Frames-create_group env name ids)
  serve-Leads vs (delete_group_request k) = answer-Frames vs _ _ (Frames-delete_group env k)
  serve-Leads vs (get_group_request k ids) = answer-Frames vs _ _ (Frames-get_group env k ids)
  serve-Leads vs (list_volumes_request req) = answer-Frames vs _ _ (Frames-list_volumes env req)
  serve-Leads vs (get_volume_request k) = answer-Frames vs _ _ (Frames-controller_get_volume env k)
  serve-Leads vs (volume_stats_request k path) =
      answer-Frames vs _ _ (Frames-node_get_volume_stats env k path)
  serve-Leads vs plugin_info_request =
      answer-Frames vs _ _ (Frames-lift (get_plugin_info env.config))
  serve-Leads vs probe_request = unchanged vs _
  serve-Leads vs plugin_capabilities_request = unchanged vs _
  serve-Leads vs controller_capabilities_request = unchanged vs _
  serve-Leads vs group_capabilities_request = unchanged vs _
  serve-Leads vs node_info_request = unchanged vs _
  serve-Leads vs node_capabilities_request = unchanged vs _

  -- Whatever a request of the twenty-nine methods answers, an error or a panic included, and
  -- whatever the operating system does meanwhile, the volumes of the state change by steps of the
  -- life cycle only. In these a volume is published only if it is staged, but for a
  -- NodePublishVolume request that asks for an ephemeral volume.
  pub serve-Reach :
      (req : Request) (s : Store W)
      → Reach env.config
          (asks_ephemeral env.config req)
          (volumes_of s)
          (volumes_of (serve env req s).1)
  serve-Reach req s = (serve-Leads (volumes_of s) req).at s refl

  -- A sequence of requests of the twenty-nine methods, whatever they answer, keeps the volumes
  -- valid if they were: IDs and names stay distinct, no volume is larger than allowed or staged
  -- twice, no more volumes are attached than the limit allows, and where attaching and the life
  -- cycle check are on, staged volumes are attached.
  pub serve_all-IsValid :
      (reqs : List Request) (s : Store W)
      → IsValid env.config (volumes_of s)
      → IsValid env.config (volumes_of (serve_all env reqs s))
  unfolding serve_all
  serve_all-IsValid [] s valid = valid
  serve_all-IsValid (req ∷ reqs) s valid =
      serve_all-IsValid reqs (serve env req s).1 (Reach-IsValid valid (serve-Reach req s))
