-- ===== src/HostPath/Stage/Retry.antt =====
-- Staging and unstaging may be repeated: the calls are idempotent, as the CSI specification wants.
use csi.Prelude.{◌≡◌, inl, inr, true, some, arith, Option-cases}
use csi.Exec.{ok}
use csi.State.Strings
use csi.State.Strings.{has-add, remove-add, has-of_is_empty}
use csi.State.Types.{Volume}
use csi.State.Table.{find, key-find}
use csi.State.Laws.{find-update_volume}
use csi.State.Store.{Store, volume_key, get_volume_by_id, update_volume}
use csi.HostPath.Env.{Env}
use csi.HostPath.Requests.{NodeStageRequest}
use csi.HostPath.Leads.{volumes_of}
use csi.HostPath.Stage.{node_stage_volume, node_unstage_volume}

module _ {W : Type 0} (env : Env W) where
  -- A staging that succeeded may be repeated: it succeeds and changes nothing.
  pub stage-again :
      (req : NodeStageRequest) (s : Store W)
      → (node_stage_volume env req s).0 ≡ ok tt
      → let t = (node_stage_volume env req s).1 in node_stage_volume env req t ≡ (ok tt, t)
  unfolding node_stage_volume get_volume_by_id
  stage-again req s h = elim (Option-cases (find volume_key req.volume_id (volumes_of s))) [
    | inl e ↦ ground arith
    | inr (v, e) ↦ ground (
      arith,
      key-find volume_key req.volume_id (volumes_of s) {a = v},
      find-update_volume env.disk
          (record v { staged = Strings.add req.staging_target_path v.staged }) s,
      has-add req.staging_target_path req.staging_target_path v.staged,
    )
  ]

  -- A volume that was neither staged nor published is, once staged with success and unstaged again
  -- at the same path, exactly what it was, whether or not the state file could be written the
  -- second time.
  pub stage-unstage :
      (req : NodeStageRequest) (s : Store W) (v : Volume)
      → find volume_key req.volume_id (volumes_of s) ≡ some v
      → Strings.is_empty v.staged ≡ true
      → Strings.is_empty v.published ≡ true
      → (node_stage_volume env req s).0 ≡ ok tt
      → let t = (node_stage_volume env req s).1 in
        find volume_key req.volume_id
          (volumes_of (node_unstage_volume env req.volume_id req.staging_target_path t).1)
        ≡ some v
  unfolding node_stage_volume node_unstage_volume get_volume_by_id
  stage-unstage req s v found unstaged unpublished h =
      let path = req.staging_target_path in
      let staged = record v { staged = Strings.add path v.staged } in
      ground (
        arith,
        key-find volume_key req.volume_id (volumes_of s) {a = v},
        find-update_volume env.disk staged s,
        find-update_volume env.disk v (update_volume env.disk staged s).1,
        has-add path path v.staged,
        has-of_is_empty path v.staged,
        remove-add path v.staged,
      )
