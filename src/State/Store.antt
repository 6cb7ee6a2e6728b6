-- ===== src/State/Store.antt =====
-- `state` of pkg/state/state.go and its methods. The file system and encoding/json are parameters.
use csi.Prelude.{String, ◌≡◌, Option, none, some, List, [], ◌⊎◌, inl, inr}
use csi.Exec.{Exec, Result, OsError, ok, err, status, internal, not_found, not_exist}
use csi.State.Types.{Volume, Snapshot, GroupSnapshot, Resources}
use csi.State.Table.{find, upsert, erase}

-- What the package calls: `json.Marshal`, `json.Unmarshal`, `os.WriteFile`, `os.ReadFile`, over a
-- world that the calls read and change.
pub record Disk (W : Type 0) : Type 0 where
  pub marshal : Resources → Option String
  pub unmarshal : String → Option Resources
  pub write_file : String → String → W → Option OsError × W
  pub read_file : String → W → (OsError ⊎ String) × W

-- The documented behaviour that a restart relies on: what was marshalled is unmarshalled to the
-- same value, and a file that was written without error is read back.
pub record IsFaithful {W : Type 0} (disk : Disk W) : Type 0 where
  pub unmarshal-marshal :
      (r : Resources) (text : String) → disk.marshal r ≡ some text → disk.unmarshal text ≡ some r
  pub read-write :
      (path text : String) (w : W)
      → (disk.write_file path text w).0 ≡ none
      → (disk.read_file path (disk.write_file path text w).1).0 ≡ inr text

pub record Store (W : Type 0) : Type 0 where
  pub resources : Resources
  pub statefile_path : String
  pub world : W

abbrev pub no_resources : Resources
no_resources = record { volumes = []; snapshots = []; group_snapshots = [] }

abbrev pub volume_key : Volume → String
volume_key v = v.vol_id

abbrev pub volume_name : Volume → String
volume_name v = v.vol_name

abbrev pub snapshot_key : Snapshot → String
snapshot_key s = s.id

abbrev pub snapshot_name : Snapshot → String
snapshot_name s = s.name

abbrev pub group_key : GroupSnapshot → String
group_key g = g.id

abbrev pub group_name : GroupSnapshot → String
group_name g = g.name

abbrev pub or_not_found : {A : Type 0} → Option A → Result A
or_not_found none = err (status not_found)
or_not_found (some a) = ok a

module _ {W : Type 0} where
  abbrev pub set_volumes : List Volume → Store W → Store W
  set_volumes vs s = record s { resources = record s.resources { volumes = vs } }

  abbrev pub set_snapshots : List Snapshot → Store W → Store W
  set_snapshots ss s = record s { resources = record s.resources { snapshots = ss } }

  abbrev pub set_group_snapshots : List GroupSnapshot → Store W → Store W
  set_group_snapshots gs s = record s { resources = record s.resources { group_snapshots = gs } }

  unfoldable pub get_volume_by_id : String → Exec (Store W) Volume
  get_volume_by_id k s = (or_not_found (find volume_key k s.resources.volumes), s)

  unfoldable pub get_volume_by_name : String → Exec (Store W) Volume
  get_volume_by_name k s = (or_not_found (find volume_name k s.resources.volumes), s)

  unfoldable pub get_volumes : Store W → List Volume
  get_volumes s = s.resources.volumes

  unfoldable pub get_snapshot_by_id : String → Exec (Store W) Snapshot
  get_snapshot_by_id k s = (or_not_found (find snapshot_key k s.resources.snapshots), s)

  unfoldable pub get_snapshot_by_name : String → Exec (Store W) Snapshot
  get_snapshot_by_name k s = (or_not_found (find snapshot_name k s.resources.snapshots), s)

  unfoldable pub get_snapshots : Store W → List Snapshot
  get_snapshots s = s.resources.snapshots

  unfoldable pub get_group_snapshot_by_id : String → Exec (Store W) GroupSnapshot
  get_group_snapshot_by_id k s = (or_not_found (find group_key k s.resources.group_snapshots), s)

  unfoldable pub get_group_snapshot_by_name : String → Exec (Store W) GroupSnapshot
  get_group_snapshot_by_name k s = (or_not_found (find group_name k s.resources.group_snapshots), s)

  unfoldable pub get_group_snapshots : Store W → List GroupSnapshot
  get_group_snapshots s = s.resources.group_snapshots

module _ {W : Type 0} (disk : Disk W) where
  written : Option OsError × W → Exec (Store W) (Unit {0})
  written (none, w) s = (ok tt, record s { world = w })
  written (some e, w) s = (err (status internal), record s { world = w })

  -- `dump`: nothing is rolled back when the file cannot be written.
  unfoldable pub dump : Exec (Store W) (Unit {0})
  unfolding written
  dump s = elim (disk.marshal s.resources) [
    | none ↦ (err (status internal), s)
    | some text ↦ written (disk.write_file s.statefile_path text s.world) s
  ]

  decoded : Option Resources → Exec (Store W) (Unit {0})
  decoded none s = (err (status internal), s)
  decoded (some r) s = (ok tt, record s { resources = r })

  restored : (OsError ⊎ String) × W → Exec (Store W) (Unit {0})
  unfolding decoded
  restored (inl not_exist, w) s = (ok tt, record s { world = w })
  restored (inl _, w) s = (err (status internal), record s { world = w })
  restored (inr text, w) s = decoded (disk.unmarshal text) (record s { world = w })

  -- `restore`. `json.Unmarshal` fills the resources, which are empty when `new` calls this.
  unfoldable pub restore : Exec (Store W) (Unit {0})
  unfolding restored
  restore s =
      let cleared : Store W = set_snapshots [] (set_volumes [] s) in
      restored (disk.read_file s.statefile_path s.world) cleared

  -- `New`
  unfoldable pub new : String → W → Result (Unit {0}) × Store W
  unfolding restore
  new path w = restore (record { resources = no_resources; statefile_path = path; world = w })

  unfoldable pub update_volume : Volume → Exec (Store W) (Unit {0})
  update_volume v s = dump (set_volumes (upsert volume_key v s.resources.volumes) s)

  unfoldable pub delete_volume : String → Exec (Store W) (Unit {0})
  delete_volume k s = elim (find volume_key k s.resources.volumes) [
    | none ↦ (ok tt, s)
    | some _ ↦ dump (set_volumes (erase volume_key k s.resources.volumes) s)
  ]

  unfoldable pub update_snapshot : Snapshot → Exec (Store W) (Unit {0})
  update_snapshot v s = dump (set_snapshots (upsert snapshot_key v s.resources.snapshots) s)

  unfoldable pub delete_snapshot : String → Exec (Store W) (Unit {0})
  delete_snapshot k s = elim (find snapshot_key k s.resources.snapshots) [
    | none ↦ (ok tt, s)
    | some _ ↦ dump (set_snapshots (erase snapshot_key k s.resources.snapshots) s)
  ]

  unfoldable pub update_group_snapshot : GroupSnapshot → Exec (Store W) (Unit {0})
  update_group_snapshot v s =
      dump (set_group_snapshots (upsert group_key v s.resources.group_snapshots) s)

  unfoldable pub delete_group_snapshot : String → Exec (Store W) (Unit {0})
  delete_group_snapshot k s = elim (find group_key k s.resources.group_snapshots) [
    | none ↦ (ok tt, s)
    | some _ ↦ dump (set_group_snapshots (erase group_key k s.resources.group_snapshots) s)
  ]
