-- ===== src/HostPath/Populate.antt =====
-- Filling a new volume and writing a snapshot (pkg/hostpath/hostpath.go).
pub mod Frames
use csi.Prelude.{
  String, Bool, true, false, not, Option, none, some, List, [], ◌∷◌, ◌<>◌, ite, if◌then◌else◌,
}
use csi.Prelude.Int.{ℤ, ltb_ℤ}
use csi.Exec.{
  Exec, OsError, invalid_argument, status, formatted, pure, raise, fail_if, fail_with, ◌>>=◌, ◌>>◌,
}
use csi.State.Types.{
  AccessType, mount_access, block_access, other_access, access_eq, AccessType-discrete, Volume,
  Snapshot,
}
use csi.State.Store.{Store, get_volume_by_id, get_snapshot_by_id}
use csi.HostPath.Env.{Env, FirstEntry, end_of_dir, an_entry, read_error, call}

module _ {W : Type 0} (env : Env W) where
  -- Run a command; its failure is reported by `fmt.Errorf`.
  run_command : List String → Exec (Store W) (Unit {0})
  run_command cmd = do e ← call (env.run cmd); fail_with e formatted

  snapshot_command : AccessType → String → String → Exec (Store W) (List String)
  snapshot_command mount_access path dest = pure ("tar" ∷ "zxvf" ∷ path ∷ "-C" ∷ dest ∷ [])
  snapshot_command block_access path dest = pure ("dd" ∷ ("if=" <> path) ∷ ("of=" <> dest) ∷ [])
  snapshot_command (other_access _) path dest = raise (status invalid_argument)

  -- `loadFromSnapshot`
  unfoldable pub load_from_snapshot : ℤ → String → String → AccessType → Exec (Store W) (Unit {0})
  unfolding run_command snapshot_command
  load_from_snapshot size snapshot_id dest_path mode = do
    snapshot ← get_snapshot_by_id snapshot_id
    fail_if (not snapshot.ready_to_use) formatted
    fail_if (ltb_ℤ size snapshot.size_bytes) (status invalid_argument)
    cmd ← snapshot_command mode snapshot.path dest_path
    run_command cmd

  -- `hostPathIsEmpty`
  first_entry : FirstEntry → Exec (Store W) Bool
  first_entry end_of_dir = pure true
  first_entry an_entry = pure false
  first_entry (read_error e) = raise formatted

  unfoldable pub host_path_is_empty : String → Exec (Store W) Bool
  unfolding first_entry
  host_path_is_empty p = do
    e ← call (env.open_dir p)
    fail_with e formatted
    found ← call (env.read_dir p)
    first_entry found

  -- `loadFromFilesystemVolume`
  unfoldable pub load_from_filesystem_volume : Volume → String → Exec (Store W) (Unit {0})
  unfolding host_path_is_empty run_command
  load_from_filesystem_volume vol dest_path = do
    is_empty ← host_path_is_empty vol.vol_path
    if is_empty
        then pure tt
        else run_command ("cp" ∷ "-a" ∷ (vol.vol_path <> "/.") ∷ (dest_path <> "/") ∷ [])

  -- `loadFromBlockVolume`
  unfoldable pub load_from_block_volume : Volume → String → Exec (Store W) (Unit {0})
  unfolding run_command
  load_from_block_volume vol dest_path =
      run_command ("dd" ∷ ("if=" <> vol.vol_path) ∷ ("of=" <> dest_path) ∷ [])

  load_by_mode : AccessType → Volume → String → Exec (Store W) (Unit {0})
  unfolding load_from_filesystem_volume load_from_block_volume
  load_by_mode mount_access vol dest_path = load_from_filesystem_volume vol dest_path
  load_by_mode block_access vol dest_path = load_from_block_volume vol dest_path
  load_by_mode (other_access _) vol dest_path = raise (status invalid_argument)

  -- `loadFromVolume`
  unfoldable pub load_from_volume : ℤ → String → String → AccessType → Exec (Store W) (Unit {0})
  unfolding load_by_mode
  load_from_volume size src_volume_id dest_path mode = do
    vol ← get_volume_by_id src_volume_id
    fail_if (ltb_ℤ size vol.vol_size) (status invalid_argument)
    fail_if (not (access_eq mode vol.vol_access_type)) (status invalid_argument)
    load_by_mode mode vol dest_path

  snapshot_args : AccessType → Volume → String → List String
  snapshot_args block_access vol file = "cp" ∷ vol.vol_path ∷ file ∷ []
  snapshot_args _ vol file = "tar" ∷ "czf" ∷ file ∷ "-C" ∷ vol.vol_path ∷ "." ∷ []

  -- `createSnapshotFromVolume`
  unfoldable pub create_snapshot_from_volume : Volume → String → Exec (Store W) (Unit {0})
  unfolding run_command snapshot_args
  create_snapshot_from_volume vol file = run_command (snapshot_args vol.vol_access_type vol file)
