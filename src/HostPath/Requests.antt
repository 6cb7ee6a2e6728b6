-- ===== src/HostPath/Requests.antt =====
-- The CSI messages (github.com/container-storage-interface/spec), as far as the driver reads them.
-- A pointer that may be nil is an `Option`; an `Option` holds a message that was set.
use csi.Prelude.{String, Bool, true, false, Option, none, some, List}
use csi.Prelude.Int.{ℤ, pos}
use csi.HostPath.Env.{Dict}

-- The oneof `access_type` of a VolumeCapability; a mount has a file system type and flags, which the
-- driver only logs.
pub data AccessKind : Type 0 where
  no_kind block_kind mount_kind : AccessKind

pub data AccessMode : Type 0 where
  single_node_single_writer other_mode : AccessMode

pub record VolumeCapability : Type 0 where
  pub access_type : AccessKind
  pub access_mode : Option AccessMode

-- `GetBlock() != nil` and `GetMount() != nil`.
abbrev pub is_block : VolumeCapability → Bool
is_block c = elim c.access_type [ block_kind ↦ true | _ ↦ false ]

abbrev pub is_mount : VolumeCapability → Bool
is_mount c = elim c.access_type [ mount_kind ↦ true | _ ↦ false ]

-- The oneof `type` of a VolumeContentSource; the message inside may be nil, else it holds an ID.
pub data ContentSource : Type 0 where
  from_snapshot from_volume : Option String → ContentSource
  no_source_type : ContentSource

pub record CreateVolumeRequest : Type 0 where
  pub name : String
  pub capacity_range : Option ℤ
  pub volume_capabilities : Option (List VolumeCapability)
  pub parameters : Dict String
  pub volume_content_source : Option ContentSource
  pub mutable_parameters : Dict String

-- `GetCapacityRange().GetRequiredBytes()`
abbrev pub required_bytes : Option ℤ → ℤ
required_bytes none = pos 0
required_bytes (some n) = n

pub record VolumeInfo : Type 0 where
  pub volume_id : String
  pub capacity_bytes : ℤ
  pub volume_context : Dict String
  pub content_source : Option ContentSource
  pub accessible_topology : List (Dict String)

pub record ControllerPublishRequest : Type 0 where
  pub volume_id : String
  pub node_id : String
  pub volume_capability : Option VolumeCapability
  pub readonly : Bool

pub record ControllerExpandRequest : Type 0 where
  pub volume_id : String
  pub capacity_range : Option ℤ

pub record ControllerExpandResponse : Type 0 where
  pub capacity_bytes : ℤ
  pub node_expansion_required : Bool

pub record NodePublishRequest : Type 0 where
  pub volume_id : String
  pub target_path : String
  pub staging_target_path : String
  pub volume_capability : Option VolumeCapability
  pub readonly : Bool
  pub volume_context : Dict String

pub record NodeStageRequest : Type 0 where
  pub volume_id : String
  pub staging_target_path : String
  pub volume_capability : Option VolumeCapability

pub record NodeExpandRequest : Type 0 where
  pub volume_id : String
  pub volume_path : String
  pub capacity_range : Option ℤ
