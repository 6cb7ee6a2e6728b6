-- ===== src/State/Types.antt =====
-- The data of pkg/state/state.go.
use csi.Prelude.{String, Bool, true, false, List, ite, ℕ_discrete}
use csi.Prelude.Int.{ℤ}
use csi.State.Strings.{Strings}

-- An `int` in the source: a state file may hold a number that is neither constant.
pub data AccessType : Type 0 where
  mount_access block_access : AccessType
  other_access : ℤ → AccessType

ℤ-discrete : Discrete ℤ
ℤ-discrete = hlevel ℕ_discrete

unfoldable pub AccessType-discrete : Discrete AccessType
unfolding ℤ-discrete
AccessType-discrete = hlevel ℤ-discrete

abbrev pub access_eq : AccessType → AccessType → Bool
access_eq a b = ite (AccessType-discrete a b) true false

-- A time stamp, which the driver only copies.
abbrev pub Timestamp : Type 0
Timestamp = ℤ

pub record Volume : Type 0 where
  pub vol_name : String
  pub vol_id : String
  pub vol_size : ℤ
  pub vol_path : String
  pub vol_access_type : AccessType
  pub parent_vol_id : String
  pub parent_snap_id : String
  pub ephemeral : Bool
  pub node_id : String
  pub kind : String
  pub read_only_attach : Bool
  pub attached : Bool
  pub staged : Strings
  pub published : Strings

pub record Snapshot : Type 0 where
  pub name : String
  pub id : String
  pub vol_id : String
  pub path : String
  pub creation_time : Timestamp
  pub size_bytes : ℤ
  pub ready_to_use : Bool
  pub group_snapshot_id : String

pub record GroupSnapshot : Type 0 where
  pub name : String
  pub id : String
  pub snapshot_ids : List String
  pub source_volume_ids : List String
  pub creation_time : Timestamp
  pub ready_to_use : Bool

pub record Resources : Type 0 where
  pub volumes : List Volume
  pub snapshots : List Snapshot
  pub group_snapshots : List GroupSnapshot
