-- ===== src/HostPath/Env.antt =====
-- `Config` and `HostPath` of pkg/hostpath/hostpath.go, and what the driver calls. The mutex serialises
-- the methods, so each is one step on the store; the configuration is fixed after the start.
use csi.Prelude.{String, Bool, Option, List, [], ◌∷◌, ◌⊎◌, ◌==◌, ◌<>◌, if◌then◌else◌}
use csi.Prelude.Int.{ℤ}
use csi.Exec.{Exec, OsError, ok}
use csi.State.Types.{Timestamp}
use csi.State.Store.{Disk, Store}

-- A Go map from strings.
abbrev pub Dict : Type 0 → Type 0
Dict V = List (String × V)

-- `m[k]`, with the zero value for a missing key.
unfoldable pub lookup_or : {V : Type 0} → V → String → Dict V → V
lookup_or zero_value k [] = zero_value
lookup_or zero_value k ((j, v) ∷ m) = if j == k then v else lookup_or zero_value k m

-- A resource.Quantity is its `Value()`.
pub record Config : Type 0 where
  pub driver_name : String
  pub endpoint : String
  pub proxy_endpoint : String
  pub node_id : String
  pub vendor_version : String
  pub state_dir : String
  pub max_volumes_per_node : ℤ
  pub max_volume_size : ℤ
  pub attach_limit : ℤ
  pub capacity : Dict ℤ
  pub ephemeral : Bool
  pub show_version : Bool
  pub enable_attach : Bool
  pub enable_topology : Bool
  pub enable_volume_expansion : Bool
  pub enable_controller_modify_volume : Bool
  pub accepted_mutable_parameter_names : List String
  pub disable_controller_expansion : Bool
  pub disable_node_expansion : Bool
  pub max_volume_expansion_size_node : ℤ
  pub check_volume_lifecycle : Bool

-- What `info.Mode()` says.
pub data FileMode : Type 0 where
  directory device other_file : FileMode

-- `f.Readdir(1)`: io.EOF, an entry, or an error.
pub data FirstEntry : Type 0 where
  end_of_dir an_entry : FirstEntry
  read_error : OsError → FirstEntry

-- What `fs.Info` returns.
pub record FsInfo : Type 0 where
  pub available : ℤ
  pub capacity : ℤ
  pub used : ℤ
  pub inodes : ℤ
  pub inodes_free : ℤ
  pub inodes_used : ℤ

-- `MountPointInfo` of pkg/hostpath/healthcheck.go, and a slice of them. The two structs around it hold the
-- slice of one file system, and the file systems.
mutual
  pub data MountPointInfo : Type 0 where
    mount_point : (target source fs_type options : String) → MountPoints → MountPointInfo

  pub data MountPoints : Type 0 where
    no_mount_points : MountPoints
    more : MountPointInfo → MountPoints → MountPoints

pub record ContainerFileSystem : Type 0 where
  pub children : MountPoints

-- What the health checks call: k8s.io/kubernetes/pkg/volume/util/fs, os/exec, encoding/json.
pub record Probes (W : Type 0) : Type 0 where
  pub fs_info : String → W → (OsError ⊎ FsInfo) × W
  pub look_path : String → W → (OsError ⊎ String) × W
  pub combined_output : List String → W → (OsError ⊎ String) × W
  pub unmarshal_file_systems : String → Option (List ContainerFileSystem)

-- `IxfsQuotaer` of pkg/xfs/quotaer.go; the quotaer's own state is part of the world.
pub record Quotaer (W : Type 0) : Type 0 where
  pub add_project : String → String → W → Option OsError × W
  pub remove_project : String → W → Option OsError × W
  pub update_quota : String → String → W → Option OsError × W

-- The operating system, k8s.io/utils/mount, the volume path handler, the UUIDs, the clock, and the
-- order in which Go walks through a map.
pub record Env (W : Type 0) : Type 0 where
  pub config : Config
  pub disk : Disk W
  pub quotaer : Quotaer W
  pub probes : Probes W
  pub join : String → String → String
  pub mkdir_all : String → W → Option OsError × W
  pub mkdir : String → W → Option OsError × W
  pub stat : String → W → (OsError ⊎ FileMode) × W
  pub lstat : String → W → Option OsError × W
  pub remove : String → W → Option OsError × W
  pub remove_all : String → W → Option OsError × W
  pub open_dir : String → W → Option OsError × W
  pub read_dir : String → W → FirstEntry × W
  pub create_file : String → W → Option OsError × W
  pub run : List String → W → Option OsError × W
  pub attach_file_device : String → W → Option OsError × W
  pub detach_file_device : String → W → Option OsError × W
  pub get_loop_device : String → W → (OsError ⊎ String) × W
  pub is_not_mount_point : String → W → (OsError ⊎ Bool) × W
  pub mount : String → String → List String → W → Option OsError × W
  pub unmount : String → W → Option OsError × W
  pub new_uuid : W → String × W
  pub timestamp_now : W → Timestamp × W
  pub range_capacity : W → Dict ℤ × W

module _ {W : Type 0} where
  -- A call into the environment.
  unfoldable pub call : {A : Type 0} → (W → A × W) → Exec (Store W) A
  call f s = let (a, w) = f s.world in (ok a, record s { world = w })

  -- `getVolumePath`
  unfoldable pub get_volume_path : Env W → String → String
  get_volume_path env vol_id = env.join env.config.state_dir vol_id

  -- `getSnapshotPath`
  unfoldable pub get_snapshot_path : Env W → String → String
  get_snapshot_path env snapshot_id = env.join env.config.state_dir (snapshot_id <> ".snap")
