-- ===== src/Tests.antt =====
-- Concrete inputs for the theorems.
mod Stored
mod Requests
mod Quotas
mod Health
mod Start
mod Sockets
mod Serving
mod Changes
mod Groups
use csi.Prelude.{
  ℕ, ◌≡◌, ◌≢◌, arith, String, ◌<>◌, Bool, true, false, Option, none, some, List, [], ◌∷◌, ◌⊎◌, inl,
  inr, ◌==◌,
}
use csi.Prelude.Int.{ℤ, pos}
use csi.Exec.{OsError, not_exist}
use csi.State.Types.{Volume, Snapshot, Resources, mount_access}
use csi.State.Store.{Disk, Store, no_resources}
use csi.HostPath.Env.{Dict, Config, Quotaer, Probes, Env, end_of_dir, directory}

-- The world is one file, which may be missing.
abbrev pub World : Type 0
World = Option String

abbrev pub a_volume : Volume
a_volume = record {
  vol_name = "data";
  vol_id = "v1";
  vol_size = pos 1024;
  vol_path = "/csi/v1";
  vol_access_type = mount_access;
  parent_vol_id = "";
  parent_snap_id = "";
  ephemeral = false;
  node_id = "";
  kind = "fast";
  read_only_attach = false;
  attached = true;
  staged = [];
  published = [];
}

abbrev pub a_snapshot : Snapshot
a_snapshot = record {
  name = "monday";
  id = "s1";
  vol_id = "v1";
  path = "/csi/s1.snap";
  creation_time = pos 7;
  size_bytes = pos 1024;
  ready_to_use = true;
  group_snapshot_id = "g1";
}

abbrev pub write_file : String → String → World → Option OsError × World
write_file path text w = (none, some text)

abbrev pub read_file : String → World → (OsError ⊎ String) × World
read_file path none = (inl not_exist, none)
read_file path (some text) = (inr text, some text)

-- A disk that takes everything.
abbrev pub easy_disk : Disk World
easy_disk = record {
  marshal = λ r. some "{}";
  unmarshal = λ text. some no_resources;
  write_file = write_file;
  read_file = read_file;
}

abbrev pub with_volume : Resources
with_volume = record { volumes = a_volume ∷ []; snapshots = a_snapshot ∷ []; group_snapshots = [] }

abbrev pub empty_store : Store World
empty_store = record { resources = no_resources; statefile_path = "/csi/state.json"; world = none }

abbrev pub one_volume : Store World
one_volume = record { resources = with_volume; statefile_path = "/csi/state.json"; world = none }

abbrev pub config : Config
config = record {
  driver_name = "hostpath.csi.k8s.io";
  endpoint = "unix:///csi.sock";
  proxy_endpoint = "";
  node_id = "node-1";
  vendor_version = "1";
  state_dir = "/csi";
  max_volumes_per_node = pos 0;
  max_volume_size = pos 1000000;
  attach_limit = pos 2;
  capacity = ("fast", pos 5000) ∷ [];
  ephemeral = false;
  show_version = false;
  enable_attach = true;
  enable_topology = true;
  enable_volume_expansion = true;
  enable_controller_modify_volume = false;
  accepted_mutable_parameter_names = [];
  disable_controller_expansion = false;
  disable_node_expansion = false;
  max_volume_expansion_size_node = pos 1000000;
  check_volume_lifecycle = true;
}

abbrev quotaer : Quotaer World
quotaer = record {
  add_project = λ path size w. (none, w);
  remove_project = λ path w. (none, w);
  update_quota = λ path size w. (none, w);
}

abbrev probes : Probes World
probes = record {
  fs_info = λ path w. (
    inr record {
      available = pos 500;
      capacity = pos 4096;
      used = pos 3596;
      inodes = pos 10;
      inodes_free = pos 9;
      inodes_used = pos 1;
    },
    w,
  );
  look_path = λ name w. (inr name, w);
  combined_output = λ command w. (inr "{}", w);
  unmarshal_file_systems = λ text. some [];
}

-- A system on which every call succeeds.
abbrev pub env : Env World
env = record {
  config = config;
  disk = easy_disk;
  quotaer = quotaer;
  probes = probes;
  join = λ a b. a <> ("/" <> b);
  mkdir_all = λ path w. (none, w);
  mkdir = λ path w. (none, w);
  stat = λ path w. (inr directory, w);
  lstat = λ path w. (none, w);
  remove = λ path w. (none, w);
  remove_all = λ path w. (none, w);
  open_dir = λ path w. (none, w);
  read_dir = λ path w. (end_of_dir, w);
  create_file = λ path w. (none, w);
  run = λ command w. (none, w);
  attach_file_device = λ path w. (none, w);
  detach_file_device = λ path w. (none, w);
  get_loop_device = λ path w. (inr "/dev/loop0", w);
  is_not_mount_point = λ path w. (inr true, w);
  mount = λ source target options w. (none, w);
  unmount = λ path w. (none, w);
  new_uuid = λ w. ("v2", w);
  timestamp_now = λ w. (pos 9, w);
  range_capacity = λ w. (config.capacity, w);
}

pub differ : (s t : String) → (s == t) ≡ false → s ≢ t
differ s t h = ground arith
