-- ===== src/Tests/Changes.antt =====
-- Deletions, attachments, stagings and the snapshots of volumes, on concrete inputs.
use csi.Prelude.{
  ◌⊎◌, ◌≡◌, ◌↔◌, refl, true, false, none, some, List, [], ◌∷◌, String-discrete, arith,
}
use csi.Prelude.Int.{pos, ◌+ℤ◌, ◌-ℤ◌, ◌≤ℤ◌, add64, wrap64}
use csi.Prelude.Parse.{parse_uint32}
use csi.Exec.{ok, panicked}
use csi.State.Types.{Volume}
use csi.State.Strings
use csi.State.Table.{find, erase, upsert}
use csi.State.Store as Store
use csi.State.Store.{
  Store, volume_key, snapshot_key, no_resources, get_volumes, get_volume_by_id, get_volume_by_name,
  update_volume, dump,
}
use csi.HostPath.Capabilities.{
  Capability-discrete, create_delete_snapshot, validate_controller_service_request,
  get_controller_service_capabilities,
}
use csi.HostPath.Env.{lookup_or, call}
use csi.HostPath.Leads.{volumes_of}
use csi.HostPath.Core.{sum_sizes, check_capacity, count_attached, delete_hostpath_volume}
use csi.HostPath.Controller.{delete_volume}
use csi.HostPath.Controller.Deletion.{delete_volume-gone}
use csi.HostPath.Attach.{controller_publish_volume, get_capacity, bool_eq}
use csi.HostPath.Attach.Retry.{attach-again}
use csi.HostPath.Attach.Capacity.{check_capacity_iff}
use csi.HostPath.Stage.{node_stage_volume, node_unstage_volume}
use csi.HostPath.Stage.Retry.{stage-again, stage-unstage}
use csi.HostPath.Snapshots.{
  SnapshotInfo, listed_info, ListSnapshotsRequest, delete_hostpath_snapshot,
}
use csi.HostPath.Snapshots.Deletion.{delete_snapshot-unprotected}
use csi.HostPath.Listing.{list_from, list_all}
use csi.HostPath.Listing.Pages.{page_at, list_from-page_at, list_all-panicked}
use csi.Tests.{differ, World, a_volume, a_snapshot, config, env, one_volume}
use csi.HostPath.Publish.{node_unpublish_volume}
use csi.HostPath.Publish.Retry.{unpublish-again}
use csi.Tests.Requests.{stage_data, attach_data}

abbrev idle_volume : Volume
idle_volume = record a_volume { attached = false }

abbrev one_idle : Store World
one_idle = record {
  resources = record { volumes = idle_volume ∷ []; snapshots = []; group_snapshots = [] };
  statefile_path = "/csi/state.json";
  world = none;
}

deletes : (delete_volume env "v1" one_idle).0 ≡ ok tt
unfolding delete_volume delete_hostpath_volume String-discrete validate_controller_service_request
    get_controller_service_capabilities Capability-discrete find call lookup_or add64 wrap64 ◌+ℤ◌
    sum_sizes get_volumes update_volume dump upsert get_volume_by_id Store.delete_volume erase
    Strings.is_empty
deletes = refl

delete_volume-gone_example :
    let t = (delete_volume env "v1" one_idle).1 in
    (volumes_of t ≡ erase volume_key "v1" (volumes_of one_idle))
    × (find volume_key "v1" (volumes_of t) ≡ none)
    × (delete_volume env "v1" t ≡ (ok tt, t))
unfolding find
delete_volume-gone_example = delete_volume-gone env "v1" one_idle (refl, tt) deletes

attaches : (controller_publish_volume env attach_data one_idle).0 ≡ ok tt
unfolding controller_publish_volume String-discrete validate_controller_service_request
    get_controller_service_capabilities Capability-discrete find call lookup_or add64 wrap64 ◌+ℤ◌
    sum_sizes get_volumes update_volume dump upsert get_volume_by_id count_attached
attaches = refl

attach-again_example :
    let t = (controller_publish_volume env attach_data one_idle).1 in
    ((u : Volume) × (find volume_key "v1" (volumes_of t) ≡ some u)
      × (u.attached ≡ true)
      × (bool_eq false u.read_only_attach ≡ true))
    × (controller_publish_volume env attach_data t ≡ (ok tt, t))
attach-again_example = attach-again env attach_data one_idle attaches

stages : (node_stage_volume env stage_data one_volume).0 ≡ ok tt
unfolding node_stage_volume String-discrete validate_controller_service_request
    get_controller_service_capabilities Capability-discrete find call lookup_or add64 wrap64 ◌+ℤ◌
    sum_sizes get_volumes update_volume dump upsert get_volume_by_id Strings.has Strings.is_empty
stages = refl

stage-again_example :
    let t = (node_stage_volume env stage_data one_volume).1 in
    node_stage_volume env stage_data t ≡ (ok tt, t)
stage-again_example = stage-again env stage_data one_volume stages

stage-unstage_example :
    let t = (node_stage_volume env stage_data one_volume).1 in
    find volume_key "v1" (volumes_of (node_unstage_volume env "v1" "/stage" t).1) ≡ some a_volume
unfolding find String-discrete Strings.is_empty
stage-unstage_example = stage-unstage env stage_data one_volume a_volume refl refl refl stages

abbrev two_infos : List SnapshotInfo
two_infos = listed_info a_snapshot ∷ listed_info (record a_snapshot { id = "s2" }) ∷ []

list_from-page_at_example : list_from two_infos (pos 0) (pos 1) ≡ ok (page_at two_infos 0 1)
list_from-page_at_example = list_from-page_at two_infos 0 1 (omega arith) (omega arith)

abbrev large_token : ListSnapshotsRequest
large_token = record {
  snapshot_id = "";
  source_volume_id = "";
  starting_token = "2147483648";
  max_entries = pos 10;
}

parsed : parse_uint32 "2147483648" ≡ some 2147483648
unfolding parse_uint32
parsed = refl

list_all-panicked_example : list_all (a_snapshot ∷ []) large_token ≡ panicked
unfolding String-discrete
list_all-panicked_example =
    list_all-panicked (a_snapshot ∷ []) large_token 2147483648 (differ "2147483648" "" refl) parsed
      (omega arith) (omega arith)

offered : validate_controller_service_request config create_delete_snapshot ≡ ok tt
unfolding validate_controller_service_request get_controller_service_capabilities
    Capability-discrete
offered = refl

delete_snapshot-unprotected_example :
    (delete_hostpath_snapshot env "s1" one_volume).1.resources.snapshots
    ≡ erase snapshot_key "s1" (a_snapshot ∷ [])
unfolding String-discrete
delete_snapshot-unprotected_example =
    delete_snapshot-unprotected env "s1" one_volume (differ "s1" "" refl) offered

check_capacity_iff_example :
    ((check_capacity env (pos 3000) "fast" one_volume).0 ≡ ok "fast")
    ↔ (pos 3000 ≤ℤ (get_capacity env (("kind", "fast") ∷ []) one_volume).available_capacity)
unfolding sum_sizes get_volumes add64 wrap64 ◌+ℤ◌ ◌-ℤ◌ lookup_or String-discrete
check_capacity_iff_example =
    check_capacity_iff env (pos 3000) (("kind", "fast") ∷ []) one_volume (differ "fast" "" refl)
      refl (ground arith) (ground arith)

abbrev published_volume : Volume
published_volume = record a_volume { published = "/pods/a" ∷ "/pods/b" ∷ [] }

abbrev one_published : Store World
one_published = record one_idle {
  resources = record { volumes = published_volume ∷ []; snapshots = []; group_snapshots = [] };
}

unpublishes : (node_unpublish_volume env "v1" "/pods/a" one_published).0 ≡ ok tt
unfolding node_unpublish_volume String-discrete find call update_volume dump upsert get_volume_by_id
    Strings.has Strings.remove
unpublishes = refl

unpublish-again_example :
    let t = (node_unpublish_volume env "v1" "/pods/a" one_published).1 in
    (find volume_key "v1" (volumes_of t)
      ≡ some (record published_volume { published = "/pods/b" ∷ [] }))
    × ((Strings.has "/pods/a" ("/pods/b" ∷ []) ≡ true)
        ⊎ (node_unpublish_volume env "v1" "/pods/a" t ≡ (ok tt, t)))
unfolding find Strings.has Strings.remove String-discrete
unpublish-again_example =
    unpublish-again env "v1" "/pods/a" one_published published_volume [] ("/pods/b" ∷ []) refl refl
      refl refl unpublishes
