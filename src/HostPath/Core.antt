-- ===== src/HostPath/Core.antt =====
-- The helpers of pkg/hostpath/hostpath.go that the gRPC methods share.
pub mod Frames
pub mod Success
use csi.Prelude.{
  ℕ, suc, ◌/◌, ◌*◌, String, Bool, true, false, not, Option, none, some, List, [], ◌∷◌, ◌⊎◌, inl,
  inr, ◌==◌, ◌<>◌, if◌then◌else◌,
}
use csi.Prelude.Int.{ℤ, pos, negsuc, ltb_ℤ, leb_ℤ, add64, sub_ℕ}
use csi.Prelude.Decimal.{decimal, decimal_ℤ}
use csi.Exec.{
  Exec, Error, OsError, not_exist, Code, out_of_range, resource_exhausted, invalid_argument, status,
  os_error, formatted, pure, raise, gets, lift, fail_if, fail_with, attempt, ◌>>=◌, ◌>>◌,
}
use csi.State.Types.{
  AccessType, mount_access, block_access, other_access, access_eq, Volume, Snapshot,
}
use csi.State.Store.{
  Store, get_volumes, get_volume_by_id, get_snapshot_by_id, update_volume, delete_volume,
}
use csi.Xfs.Units.{float64, convert_bytes_to_string}
use csi.HostPath.Env.{
  Dict, lookup_or, Env, FileMode, FirstEntry, end_of_dir, an_entry, read_error, call,
  get_volume_path,
}

-- The loop of `sumVolumeSizes`; `+=` wraps.
unfoldable pub sum_sizes : String → List Volume → ℤ → ℤ
sum_sizes kind [] sum = sum
sum_sizes kind (v ∷ vs) sum =
    sum_sizes kind vs (if v.kind == kind then add64 sum v.vol_size else sum)

abbrev pub sum_volume_sizes : {W : Type 0} → String → Store W → ℤ
sum_volume_sizes kind s = sum_sizes kind (get_volumes s) (pos 0)

-- `getAttachCount`. A slice has fewer than 2⁶³ entries, so the counter does not wrap.
unfoldable pub count_attached : List Volume → ℕ → ℕ
count_attached [] count = count
count_attached (v ∷ vs) count = count_attached vs (if v.attached then suc count else count)

abbrev pub get_attach_count : {W : Type 0} → Store W → ℤ
get_attach_count s = pos (count_attached (get_volumes s) 0)

-- `Capacity.Enabled`
abbrev pub enabled : Dict ℤ → Bool
enabled [] = false
enabled (_ ∷ _) = true

-- The loop over the capacity map: the first kind that has room for `cap`, else the empty string.
unfoldable pub pick_kind : {W : Type 0} → ℤ → Dict ℤ → Store W → String
pick_kind cap [] s = ""
pick_kind cap ((k, c) ∷ rest) s =
    if leb_ℤ (add64 (sum_volume_sizes k s) cap) c then k else pick_kind cap rest s

-- `cap/mib` rounds towards zero.
abbrev div_mib : ℤ → ℤ
div_mib (pos n) = pos (n / (1024 * 1024))
div_mib (negsuc n) = sub_ℕ 0 (suc n / (1024 * 1024))

module _ {W : Type 0} (env : Env W) where
  -- The capacity checks at the start of `createVolume`; the result is the kind of the volume.
  unfoldable pub check_capacity : ℤ → String → Exec (Store W) String
  unfolding pick_kind
  check_capacity cap kind =
      if enabled env.config.capacity
      then (do
        order ← call env.range_capacity
        picked ← gets (λ s. if kind == "" then pick_kind cap order s else kind)
        fail_if (picked == "") (status resource_exhausted)
        used ← gets (sum_volume_sizes picked)
        fail_if (ltb_ℤ (lookup_or (pos 0) picked env.config.capacity) (add64 used cap))
            (status resource_exhausted)
        pure picked)
      else (do fail_if (not (kind == "")) (status invalid_argument); pure kind)

  -- The switch over the access type in `createVolume`.
  make_file_for_block : String → ℤ → (OsError ⊎ FileMode) → Exec (Store W) (Unit {0})
  make_file_for_block path cap (inr _) = pure tt
  make_file_for_block path cap (inl not_exist) = do
    e ← call (env.run ("fallocate" ∷ "-l" ∷ (decimal_ℤ (div_mib cap) <> "M") ∷ path ∷ []))
    fail_with e formatted
  make_file_for_block path cap (inl _) = raise formatted

  after_attach : String → Option OsError → Exec (Store W) (Unit {0})
  after_attach path none = pure tt
  after_attach path (some _) = do call (env.remove path); raise formatted

  or_os_error : Option OsError → Exec (Store W) (Unit {0})
  or_os_error none = pure tt
  or_os_error (some e) = raise (os_error e)

  unfoldable pub make_storage : String → ℤ → AccessType → Exec (Store W) (Unit {0})
  unfolding make_file_for_block after_attach or_os_error
  make_storage path cap mount_access = do e ← call (env.mkdir_all path); or_os_error e
  make_storage path cap block_access = do
    found ← call (env.stat path)
    make_file_for_block path cap found
    e ← call (env.attach_file_device path)
    after_attach path e
  make_storage path cap (other_access _) = raise formatted

  -- The volume that `createVolume` adds; the fields that its literal leaves out are zero values.
  abbrev pub new_volume : String → String → ℤ → AccessType → Bool → String → Volume
  new_volume vol_id name cap access_type ephemeral kind = record {
    vol_id = vol_id;
    vol_name = name;
    vol_size = cap;
    vol_path = get_volume_path env vol_id;
    vol_access_type = access_type;
    ephemeral = ephemeral;
    kind = kind;
    parent_vol_id = "";
    parent_snap_id = "";
    node_id = "";
    read_only_attach = false;
    attached = false;
    staged = [];
    published = [];
  }

  -- `createVolume`. The deferred `AddProject` runs last, after a success only; its error is dropped.
  unfoldable pub create_hostpath_volume :
      String → String → ℤ → AccessType → Bool → String → Exec (Store W) Volume
  unfolding check_capacity make_storage
  create_hostpath_volume vol_id name cap access_type ephemeral kind = do
    fail_if (ltb_ℤ env.config.max_volume_size cap) (status out_of_range)
    kind' ← check_capacity cap kind
    let path = get_volume_path env vol_id
    make_storage path cap access_type
    let volume = new_volume vol_id name cap access_type ephemeral kind'
    update_volume env.disk volume
    call (env.quotaer.add_project path (convert_bytes_to_string (float64 cap)))
    pure volume

  -- `deleteVolume`
  pub detach : AccessType → String → Exec (Store W) (Unit {0})
  detach block_access path = do e ← call (env.detach_file_device path); fail_with e formatted
  detach _ path = pure tt

  pub unless_not_exist : Option OsError → Exec (Store W) (Unit {0})
  unless_not_exist none = pure tt
  unless_not_exist (some not_exist) = pure tt
  unless_not_exist (some e) = raise (os_error e)

  delete_found : String → (Error ⊎ Volume) → Exec (Store W) (Unit {0})
  unfolding detach unless_not_exist
  delete_found vol_id (inl _) = pure tt
  delete_found vol_id (inr vol) = do
    let path = get_volume_path env vol_id
    detach vol.vol_access_type path
    e ← call (env.remove_all path)
    unless_not_exist e
    delete_volume env.disk vol_id
    call (env.quotaer.remove_project path)
    pure tt

  unfoldable pub delete_hostpath_volume : String → Exec (Store W) (Unit {0})
  unfolding delete_found
  delete_hostpath_volume vol_id = do
    found ← attempt (get_volume_by_id vol_id)
    delete_found vol_id found
