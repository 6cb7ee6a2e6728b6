-- ===== src/HostPath/Volumes.antt =====
-- `ListVolumes` and `ControllerGetVolume` of pkg/hostpath/controllerserver.go.
pub mod Page
pub mod Frames
pub mod Condition
use csi.Prelude.{
  ℕ, zero, suc, String, Bool, true, false, not, ◌||◌, Option, none, some, List, [], ◌∷◌, ◌⊎◌, inl,
  inr, ◌==◌, length, get_elem?, if◌then◌else◌,
}
use csi.Prelude.Int.{ℤ, pos, negsuc, ◌+ℤ◌, ◌-ℤ◌, ltb_ℤ, leb_ℤ}
use csi.Prelude.Sort.{sort}
use csi.Prelude.Parse.{parse_int32}
use csi.Exec.{
  Exec, Error, status, aborted, not_found, pure, raise, panic, gets, attempt, ◌>>=◌, ◌>>◌,
}
use csi.State.Types.{Volume}
use csi.State.Store.{Store, volume_key, get_volumes, get_volume_by_id}
use csi.HostPath.Env.{Env}
use csi.HostPath.Health.{Message, error_text, do_health_check_in_controller_side}

pub record VolumeCondition : Type 0 where
  pub abnormal : Bool
  pub message : Message

-- An entry of the list, and the answer of `ControllerGetVolume`.
pub record VolumeEntry : Type 0 where
  pub volume_id : String
  pub capacity_bytes : ℤ
  pub published_node_ids : List String
  pub condition : VolumeCondition

-- `max_entries` is an int32.
pub record ListVolumesRequest : Type 0 where
  pub starting_token : String
  pub max_entries : ℤ

-- The entry of a volume with the verdict of its health check.
unfoldable pub entry_of : Volume → Bool × Message → VolumeEntry
entry_of v (healthy, text) = record {
  volume_id = v.vol_id;
  capacity_bytes = v.vol_size;
  published_node_ids = v.node_id ∷ [];
  condition = record { abnormal = not healthy; message = text };
}

-- The first index of the loop, of a token that is an int32.
unfoldable pub starting_index : String → Option ℤ
starting_index token = parse_int32 (if token == "" then "1" else token)

-- `maxLength`
unfoldable pub max_length : ℤ → ℤ → ℤ
max_length max_entries volumes_length =
    if ltb_ℤ volumes_length max_entries || leb_ℤ max_entries (pos 0)
    then volumes_length
    else max_entries

-- How often a loop from the first index up to the second one runs.
unfoldable pub rounds : ℤ → ℤ → ℕ
rounds index limit = elim (limit -ℤ index) [ pos n ↦ n | negsuc n ↦ 0 ]

-- The answer for a volume that is not found.
unfoldable pub missing_entry : String → Error → VolumeEntry
missing_entry volume_id e = record {
  volume_id = volume_id;
  capacity_bytes = pos 0;
  published_node_ids = [];
  condition = record { abnormal = true; message = error_text e };
}

module _ {W : Type 0} (env : Env W) where
  or_panic : Option Volume → Exec (Store W) Volume
  or_panic none = panic
  or_panic (some v) = pure v

  -- `volumes[index]`
  volume_at : List Volume → ℤ → Exec (Store W) Volume
  volume_at volumes (negsuc _) = panic
  volume_at volumes (pos index) = or_panic (get_elem? volumes index)

  -- The loop of `ListVolumes`.
  unfoldable pub list_entries : List Volume → ℕ → ℤ → Exec (Store W) (List VolumeEntry)
  unfolding volume_at or_panic
  list_entries volumes zero index = pure []
  list_entries volumes (suc n) index = do
    v ← volume_at volumes index
    verdict ← do_health_check_in_controller_side env v.vol_id
    rest ← list_entries volumes n (index +ℤ pos 1)
    pure (entry_of v verdict ∷ rest)

  -- Up to the shorter one of the two limits of the loop; `maxLength` is never above the number of volumes.
  list_from : List Volume → ℤ → Option ℤ → Exec (Store W) (List VolumeEntry)
  list_from volumes max_entries none = raise (status aborted)
  list_from volumes max_entries (some start) =
      let index = start -ℤ pos 1 in
      list_entries volumes (rounds index (max_length max_entries (pos (length volumes)))) index

  unfoldable pub list_volumes : ListVolumesRequest → Exec (Store W) (List VolumeEntry)
  unfolding list_from starting_index
  list_volumes req = do
    volumes ← gets (λ s. sort volume_key (get_volumes s))
    list_from volumes req.max_entries (starting_index req.starting_token)

  described : String → (Error ⊎ Volume) → Exec (Store W) VolumeEntry
  described volume_id (inl e) = pure (missing_entry volume_id e)
  described volume_id (inr v) = do
    verdict ← do_health_check_in_controller_side env volume_id
    pure (entry_of v verdict)

  unfoldable pub controller_get_volume : String → Exec (Store W) VolumeEntry
  unfolding described
  controller_get_volume volume_id = do
    found ← attempt (get_volume_by_id volume_id)
    described volume_id found
