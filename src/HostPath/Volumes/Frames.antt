-- ===== src/HostPath/Volumes/Frames.antt =====
-- The methods that report on volumes leave the volumes of the state alone.
use csi.Prelude.{
  ℕ, zero, suc, String, ap, Option, none, some, List, [], ◌∷◌, ◌⊎◌, inl, inr, get_elem?,
}
use csi.Prelude.Int.{ℤ, pos, negsuc, ◌+ℤ◌}
use csi.Exec.{Error, OsError}
use csi.State.Types.{Volume, Resources}
use csi.HostPath.Env.{Env, FileMode, FsInfo}
use csi.HostPath.Health.{do_health_check_in_controller_side, do_health_check_in_node_side}
use csi.HostPath.Health.Quiet.{controller_side-Answers, node_side-Answers}
use csi.HostPath.Leads.{Frames, Frames-bind, Frames-pure, Frames-panic, frames_rules}
use csi.HostPath.Volumes.{
  ListVolumesRequest, entry_of, or_panic, volume_at, list_entries, list_from, list_volumes,
  described, controller_get_volume,
}
use csi.HostPath.NodeInfo.{or_not_found, or_formatted, node_get_volume_stats}

module _ {W : Type 0} (env : Env W) where
  Frames-controller_side : (k : String) → Frames (do_health_check_in_controller_side env k)
  Frames-controller_side k = record {
    at = λ s.
        let (v, answered, verdict, kept) = controller_side-Answers env k s in
        ap (λ (r : Resources). r.volumes) kept;
  }

  Frames-node_side : (k : String) → Frames (do_health_check_in_node_side env k)
  Frames-node_side k = record {
    at = λ s.
        let (v, answered, verdict, kept) = node_side-Answers env k s in
        ap (λ (r : Resources). r.volumes) kept;
  }

  Frames-or_panic : (o : Option Volume) → Frames (or_panic env o)
  unfolding or_panic
  Frames-or_panic none = Frames-panic
  Frames-or_panic (some v) = Frames-pure v

  Frames-volume_at : (vs : List Volume) (i : ℤ) → Frames (volume_at env vs i)
  unfolding volume_at
  Frames-volume_at vs (pos i) = Frames-or_panic (get_elem? vs i)
  Frames-volume_at vs (negsuc i) = Frames-panic

  Frames-list_entries : (vs : List Volume) (n : ℕ) (i : ℤ) → Frames (list_entries env vs n i)
  unfolding list_entries
  Frames-list_entries vs zero i = Frames-pure []
  Frames-list_entries vs (suc n) i = Frames-bind _ _ (Frames-volume_at vs i) λ v.
      Frames-bind _ _ (Frames-controller_side v.vol_id) λ verdict.
        Frames-bind _ _ (Frames-list_entries vs n (i +ℤ pos 1))
          λ rest. Frames-pure (entry_of v verdict ∷ rest)

  Frames-list_from :
      (vs : List Volume) (m : ℤ) (start : Option ℤ) → Frames (list_from env vs m start)
  unfolding list_from
  Frames-list_from vs m none = search frames_rules
  Frames-list_from vs m (some start) = Frames-list_entries vs _ _

  pub Frames-list_volumes : (req : ListVolumesRequest) → Frames (list_volumes env req)
  unfolding list_volumes
  Frames-list_volumes req = search (frames_rules, Frames-list_from)

  Frames-described : (k : String) (found : Error ⊎ Volume) → Frames (described env k found)
  unfolding described
  Frames-described k (inl e) = search frames_rules
  Frames-described k (inr v) = search (frames_rules, Frames-controller_side)

  pub Frames-controller_get_volume : (k : String) → Frames (controller_get_volume env k)
  unfolding controller_get_volume
  Frames-controller_get_volume k = search (frames_rules, Frames-described)

  Frames-stat : (found : OsError ⊎ FileMode) → Frames (or_not_found env found)
  unfolding or_not_found
  Frames-stat (inl e) = search frames_rules
  Frames-stat (inr mode) = search frames_rules

  Frames-info : (out : OsError ⊎ FsInfo) → Frames (or_formatted env out)
  unfolding or_formatted
  Frames-info (inl e) = search frames_rules
  Frames-info (inr info) = search frames_rules

  pub Frames-node_get_volume_stats : (k path : String) → Frames (node_get_volume_stats env k path)
  unfolding node_get_volume_stats
  Frames-node_get_volume_stats k path =
      search (frames_rules, Frames-stat, Frames-info, Frames-node_side) depth 20
