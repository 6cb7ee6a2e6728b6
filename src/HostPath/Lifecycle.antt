-- ===== src/HostPath/Lifecycle.antt =====
-- The life of a volume as a state machine on the volumes of the state: what the methods of the driver
-- may do to them, and nothing of how they do it. (docs of the Container Storage Interface.)
pub mod Lemmas
pub mod Invariants
pub mod Rules
use csi.Prelude.{
  ℕ, suc, ◌≤◌, ◌<◌, String, ◌≡◌, refl, Bool, true, false, Option, none, some, List, [],
}
use csi.Prelude.Int.{ℤ, pos, ◌≤ℤ◌, ◌<ℤ◌}
use csi.State.Strings
use csi.State.Types.{Volume}
use csi.State.Table.{find, upsert, erase}
use csi.State.Store.{volume_key, volume_name}
use csi.HostPath.Env.{Config}
use csi.HostPath.Core.{count_attached}

-- One step from the volumes `vs` to the volumes `us`. A step on a volume that is there names it and
-- the ID under which it was found. `ephemeral` says whether an ephemeral volume was asked for.
pub data Step (cfg : Config) (ephemeral : Bool) (vs us : List Volume) : Type 0 where
  -- A volume under a name that is not in use, of a size that is allowed.
  create :
      (v : Volume)
      → v.attached ≡ false
      → v.staged ≡ []
      → v.published ≡ []
      → v.vol_size ≤ℤ cfg.max_volume_size
      → find volume_name v.vol_name vs ≡ none
      → us ≡ upsert volume_key v vs
      → Step cfg ephemeral vs us
  delete : (k : String) → us ≡ erase volume_key k vs → Step cfg ephemeral vs us
  -- A volume that is not attached, where the limit, if there is one, leaves room.
  attach :
      (k : String) (v : Volume) (readonly : Bool)
      → find volume_key k vs ≡ some v
      → v.attached ≡ false
      → (pos 0 <ℤ cfg.attach_limit → pos (count_attached vs 0) <ℤ cfg.attach_limit)
      → us ≡ upsert volume_key (record v { attached = true; read_only_attach = readonly }) vs
      → Step cfg ephemeral vs us
  -- If the life cycle is checked, only a volume that is in use on no node.
  detach :
      (k : String) (v : Volume)
      → find volume_key k vs ≡ some v
      → (cfg.check_volume_lifecycle ≡ true
          → (Strings.is_empty v.published ≡ true) × (Strings.is_empty v.staged ≡ true))
      → us ≡ upsert volume_key (record v { attached = false }) vs
      → Step cfg ephemeral vs us
  -- Volumes only grow, and not past the largest size.
  expand :
      (k : String) (v : Volume) (bytes : ℤ)
      → find volume_key k vs ≡ some v
      → v.vol_size <ℤ bytes
      → bytes ≤ℤ cfg.max_volume_size
      → us ≡ upsert volume_key (record v { vol_size = bytes }) vs
      → Step cfg ephemeral vs us
  -- Only a volume that is staged nowhere, and is attached if the driver attaches volumes.
  stage :
      (k : String) (v : Volume) (path : String)
      → find volume_key k vs ≡ some v
      → Strings.is_empty v.staged ≡ true
      → (cfg.enable_attach ≡ true → v.attached ≡ true)
      → us ≡ upsert volume_key (record v { staged = Strings.add path v.staged }) vs
      → Step cfg ephemeral vs us
  -- Only a volume that is published nowhere.
  unstage :
      (k : String) (v : Volume) (path : String)
      → find volume_key k vs ≡ some v
      → Strings.has path v.staged ≡ true
      → Strings.is_empty v.published ≡ true
      → us ≡ upsert volume_key (record v { staged = Strings.remove path v.staged }) vs
      → Step cfg ephemeral vs us
  -- A volume that is staged, unless an ephemeral one was asked for.
  publish :
      (k : String) (v : Volume) (path : String)
      → find volume_key k vs ≡ some v
      → (ephemeral ≡ false → Strings.is_empty v.staged ≡ false)
      → us
        ≡ upsert volume_key
            (record v { node_id = cfg.node_id; published = Strings.add path v.published })
            vs
      → Step cfg ephemeral vs us
  unpublish :
      (k : String) (v : Volume) (path : String)
      → find volume_key k vs ≡ some v
      → Strings.has path v.published ≡ true
      → us ≡ upsert volume_key (record v { published = Strings.remove path v.published }) vs
      → Step cfg ephemeral vs us

pub data Reach (cfg : Config) (ephemeral : Bool) (vs : List Volume) : List Volume → Type 0 where
  here : Reach cfg ephemeral vs vs
  next :
      {ws us : List Volume}
      → Reach cfg ephemeral vs ws
      → Step cfg ephemeral ws us
      → Reach cfg ephemeral vs us

module _ {cfg : Config} {ephemeral : Bool} {vs : List Volume} where
  pub Reach-trans :
      {ws us : List Volume}
      → Reach cfg ephemeral vs ws
      → Reach cfg ephemeral ws us
      → Reach cfg ephemeral vs us
  Reach-trans r here = r
  Reach-trans r (next q st) = next (Reach-trans r q) st

  pub one : {us : List Volume} → Step cfg ephemeral vs us → Reach cfg ephemeral vs us
  one st = next here st
