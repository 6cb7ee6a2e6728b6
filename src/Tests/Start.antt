-- ===== src/Tests/Start.antt =====
-- The start of the driver, its flags and endpoints, and a walk through the pages, on concrete inputs.
use csi.Prelude.{
  String, ◌<>◌, ◌≡◌, refl, Option, none, some, [], ◌∷◌, inr, ◌==◌, String-discrete, if◌then◌else◌,
  map, arith,
}
use csi.Prelude.Int.{ℤ, pos}
use csi.Prelude.Sort.{sort}
use csi.Prelude.Cut.{contains, cut}
use csi.Prelude.Split.{is_space, trim_space}
use csi.Exec.{ok}
use csi.State.Store.{snapshot_key, new, restore}
use csi.HostPath.Snapshots.{listed_info}
use csi.HostPath.Listing.Walk.{follow, follow-all}
use csi.HostPath.Flags.{set_capacity, set_key}
use csi.HostPath.Start.{Host, Driver, empty_quotaer, new_host_path_driver}
use csi.HostPath.Start.Started.{Started, new_host_path_driver-Started}
use csi.Xfs.Quotaer.{System, is_xfs, new_xfs_quotaer}
use csi.State.Store.{no_resources}
use csi.Tests.{World, a_snapshot, config, easy_disk, read_file, write_file}

abbrev quantity : String → Option ℤ
quantity text = if text == "5K" then some (pos 5000) else none

set_fast : set_capacity quantity "fast=5K" [] ≡ ok (("fast", pos 5000) ∷ [])
unfolding set_capacity set_key cut String-discrete
set_fast = refl

follow-all_example :
    follow 3 (record a_snapshot { id = "s2" } ∷ a_snapshot ∷ []) (pos 1) ""
    ≡ some (map listed_info (sort snapshot_key (record a_snapshot { id = "s2" } ∷ a_snapshot ∷ [])))
follow-all_example = follow-all (record a_snapshot { id = "s2" } ∷ a_snapshot ∷ []) 1 (omega arith)

-- A host without an XFS file system.
abbrev plain_system : System World
plain_system = record {
  xfs_path = "/csi";
  projects_file = "/csi/projects";
  clean_path = "/csi";
  stat = λ path w. (none, w);
  run = λ command w. (none, w);
  output = λ command w. (inr "ext2/ext3", w);
  get_mounts = λ w. (inr [], w);
  look_path = λ name w. (none, w);
  create_file = λ path w. (none, w);
  read_file = read_file;
  write_file = write_file;
  range = λ projects w. (projects, w);
}

abbrev host : Host World
host = record {
  join = λ a b. a <> ("/" <> b);
  mkdir_all = λ path w. (none, w);
  disk = easy_disk;
  system = λ path. plain_system;
}

abbrev driver : Driver
driver = record {
  config = config;
  resources = no_resources;
  statefile_path = "/csi/state.json";
  quotaer = empty_quotaer;
}

starts : new_host_path_driver host config none ≡ (ok driver, none)
unfolding new_host_path_driver new restore new_xfs_quotaer is_xfs trim_space is_space contains
    String-discrete
starts = refl

new_host_path_driver-Started_example : Started host config none driver
new_host_path_driver-Started_example =
    new_host_path_driver-Started host config none none driver starts
