-- ===== src/HostPath/Populate/Frames.antt =====
-- Filling a volume and writing a snapshot leave the volumes of the state alone.
use csi.Prelude.{String, List}
use csi.Prelude.Int.{ℤ}
use csi.State.Types.{AccessType, mount_access, block_access, other_access, Volume}
use csi.HostPath.Env.{Env, FirstEntry, end_of_dir, an_entry, read_error}
use csi.HostPath.Populate.{
  run_command, snapshot_command, load_from_snapshot, first_entry, host_path_is_empty,
  load_from_filesystem_volume, load_from_block_volume, load_by_mode, load_from_volume,
  create_snapshot_from_volume,
}
use csi.HostPath.Leads.{Frames, frames_rules}

module _ {W : Type 0} (env : Env W) where
  Frames-run_command : (cmd : List String) → Frames (run_command env cmd)
  unfolding run_command
  Frames-run_command cmd = search frames_rules

  Frames-snapshot_command :
      (mode : AccessType) (path dest : String) → Frames (snapshot_command env mode path dest)
  unfolding snapshot_command
  Frames-snapshot_command mount_access path dest = search frames_rules
  Frames-snapshot_command block_access path dest = search frames_rules
  Frames-snapshot_command (other_access _) path dest = search frames_rules

  pub Frames-load_from_snapshot :
      (size : ℤ) (snapshot_id dest_path : String) (mode : AccessType)
      → Frames (load_from_snapshot env size snapshot_id dest_path mode)
  unfolding load_from_snapshot
  Frames-load_from_snapshot size snapshot_id dest_path mode =
      search (frames_rules, Frames-run_command, Frames-snapshot_command) depth 12

  Frames-first_entry : (found : FirstEntry) → Frames (first_entry env found)
  unfolding first_entry
  Frames-first_entry end_of_dir = search frames_rules
  Frames-first_entry an_entry = search frames_rules
  Frames-first_entry (read_error _) = search frames_rules

  Frames-host_path_is_empty : (p : String) → Frames (host_path_is_empty env p)
  unfolding host_path_is_empty
  Frames-host_path_is_empty p = search (frames_rules, Frames-first_entry) depth 10

  Frames-load_from_filesystem_volume :
      (vol : Volume) (dest_path : String) → Frames (load_from_filesystem_volume env vol dest_path)
  unfolding load_from_filesystem_volume
  Frames-load_from_filesystem_volume vol dest_path =
      search (frames_rules, Frames-host_path_is_empty, Frames-run_command)

  Frames-load_by_mode :
      (mode : AccessType) (vol : Volume) (dest_path : String)
      → Frames (load_by_mode env mode vol dest_path)
  unfolding load_by_mode load_from_block_volume
  Frames-load_by_mode mount_access vol dest_path = Frames-load_from_filesystem_volume vol dest_path
  Frames-load_by_mode block_access vol dest_path = Frames-run_command _
  Frames-load_by_mode (other_access _) vol dest_path = search frames_rules

  pub Frames-load_from_volume :
      (size : ℤ) (src_volume_id dest_path : String) (mode : AccessType)
      → Frames (load_from_volume env size src_volume_id dest_path mode)
  unfolding load_from_volume
  Frames-load_from_volume size src_volume_id dest_path mode =
      search (frames_rules, Frames-load_by_mode) depth 10

  pub Frames-create_snapshot_from_volume :
      (vol : Volume) (file : String) → Frames (create_snapshot_from_volume env vol file)
  unfolding create_snapshot_from_volume
  Frames-create_snapshot_from_volume vol file = Frames-run_command _
