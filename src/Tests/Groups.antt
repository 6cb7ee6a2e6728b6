-- ===== src/Tests/Groups.antt =====
-- A deletion of a group of snapshots, on concrete inputs.
use csi.Prelude.{refl, true, [], ◌∷◌, String-discrete}
use csi.Prelude.Int.{pos}
use csi.State.Types.{GroupSnapshot}
use csi.State.Table.{find}
use csi.State.Store.{Store}
use csi.HostPath.Groups.{delete_volume_group_snapshot}
use csi.HostPath.Groups.Deletion.{Outcome, delete_group-Outcome}
use csi.Tests.{differ, World, a_snapshot, a_volume, env, one_volume}

abbrev a_group : GroupSnapshot
a_group = record {
  name = "both";
  id = "g1";
  snapshot_ids = "s1" ∷ "s2" ∷ [];
  source_volume_ids = "v1" ∷ "v2" ∷ [];
  creation_time = pos 7;
  ready_to_use = true;
}

abbrev grouped : Store World
grouped = record one_volume {
  resources = record {
    volumes = a_volume ∷ [];
    snapshots = record a_snapshot { id = "s2" } ∷ a_snapshot ∷ [];
    group_snapshots = a_group ∷ [];
  };
}

delete_group-Outcome_example :
    let (a, t) = delete_volume_group_snapshot env "g1" grouped in
    Outcome env "g1" ("s1" ∷ "s2" ∷ []) grouped.resources a t.resources
unfolding find String-discrete
delete_group-Outcome_example =
    delete_group-Outcome env "g1" a_group grouped (differ "g1" "" refl) refl (refl, (refl, tt))
      (refl, tt)
