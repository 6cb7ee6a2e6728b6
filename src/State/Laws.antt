-- ===== src/State/Laws.antt =====
-- What the methods of `State` promise (the comments of the interface in pkg/state/state.go).
use csi.Prelude.{
  String, ◌≡◌, refl, ap, sym, ◌∙◌, some, Option-cases, List, [], ◌∷◌, inl, inr, ==-refl, arith,
}
use csi.Exec.{ok, Exec, pure, ◌>>◌}
use csi.State.Types.{Volume, Snapshot, GroupSnapshot, Resources}
use csi.State.Table.{find, upsert, erase, find-upsert, erase_absent}
use csi.State.Store.{
  Disk, IsFaithful, Store, volume_key, snapshot_key, group_key, set_volumes, set_snapshots,
  set_group_snapshots, dump, new, update_volume, delete_volume, update_snapshot, delete_snapshot,
  update_group_snapshot, delete_group_snapshot,
}

-- The six methods that change the state.
pub data Change : Type 0 where
  put_volume : Volume → Change
  drop_volume : String → Change
  put_snapshot : Snapshot → Change
  drop_snapshot : String → Change
  put_group : GroupSnapshot → Change
  drop_group : String → Change

-- What a change is meant to do to the resources, with no file in sight.
abbrev pub effect : Change → Resources → Resources
effect (put_volume v) r = record r { volumes = upsert volume_key v r.volumes }
effect (drop_volume k) r = record r { volumes = erase volume_key k r.volumes }
effect (put_snapshot v) r = record r { snapshots = upsert snapshot_key v r.snapshots }
effect (drop_snapshot k) r = record r { snapshots = erase snapshot_key k r.snapshots }
effect (put_group v) r = record r { group_snapshots = upsert group_key v r.group_snapshots }
effect (drop_group k) r = record r { group_snapshots = erase group_key k r.group_snapshots }

unfoldable pub after : List Change → Resources → Resources
after [] r = r
after (c ∷ cs) r = after cs (effect c r)

module _ {W : Type 0} (disk : Disk W) where
  abbrev pub apply : Change → Exec (Store W) (Unit {0})
  apply (put_volume v) = update_volume disk v
  apply (drop_volume k) = delete_volume disk k
  apply (put_snapshot v) = update_snapshot disk v
  apply (drop_snapshot k) = delete_snapshot disk k
  apply (put_group v) = update_group_snapshot disk v
  apply (drop_group k) = delete_group_snapshot disk k

  pub resources-dump : (s : Store W) → (dump disk s).1.resources ≡ s.resources
  unfolding dump
  resources-dump s = ground arith

  pub statefile_path-dump : (s : Store W) → (dump disk s).1.statefile_path ≡ s.statefile_path
  unfolding dump
  statefile_path-dump s = ground arith

  -- Each change has its effect on the resources in memory, whether or not the file could be written.
  pub resources-apply : (c : Change) (s : Store W) → (apply c s).1.resources ≡ effect c s.resources
  unfolding update_volume delete_volume update_snapshot delete_snapshot update_group_snapshot
      delete_group_snapshot
  resources-apply (put_volume v) s = resources-dump _
  resources-apply (drop_volume k) s =
      let rest = erase volume_key k s.resources.volumes in
      ground
        (arith, erase_absent volume_key k s.resources.volumes, resources-dump (set_volumes rest s))
  resources-apply (put_snapshot v) s = resources-dump _
  resources-apply (drop_snapshot k) s =
      let rest = erase snapshot_key k s.resources.snapshots in
      ground (
        arith,
        erase_absent snapshot_key k s.resources.snapshots,
        resources-dump (set_snapshots rest s),
      )
  resources-apply (put_group v) s = resources-dump _
  resources-apply (drop_group k) s =
      let rest = erase group_key k s.resources.group_snapshots in
      ground (
        arith,
        erase_absent group_key k s.resources.group_snapshots,
        resources-dump (set_group_snapshots rest s),
      )

  -- A volume that was written is found under its ID.
  pub find-update_volume :
      (v : Volume) (s : Store W)
      → find volume_key v.vol_id (update_volume disk v s).1.resources.volumes ≡ some v
  find-update_volume v s =
      rw
        (
          ap (λ (r : Resources). r.volumes) (resources-apply (put_volume v) s),
          find-upsert volume_key v.vol_id v s.resources.volumes,
          ==-refl v.vol_id,
        )
        refl

  -- A driver that starts on the state file as it is now comes up with the resources in memory.
  abbrev pub IsSaved : Store W → Type 0
  IsSaved s =
      ((new disk s.statefile_path s.world).0 ≡ ok tt)
      × ((new disk s.statefile_path s.world).1.resources ≡ s.resources)

  module _ (faithful : IsFaithful disk) where
    dump-IsSaved : (s : Store W) → (dump disk s).0 ≡ ok tt → IsSaved (dump disk s).1
    unfolding dump new
    dump-IsSaved s h = elim (Option-cases (disk.marshal s.resources)) [
      | inl e ↦ ground arith
      | inr (text, e) ↦ ground (
        arith,
        faithful.unmarshal-marshal s.resources text,
        faithful.read-write s.statefile_path text s.world,
      )
    ]

    -- A change that succeeds leaves the file in step with the memory.
    pub apply-IsSaved :
        (c : Change) (s : Store W) → IsSaved s → (apply c s).0 ≡ ok tt → IsSaved (apply c s).1
    unfolding update_volume delete_volume update_snapshot delete_snapshot update_group_snapshot
        delete_group_snapshot
    apply-IsSaved (put_volume v) s saved h = dump-IsSaved _ h
    apply-IsSaved (drop_volume k) s saved h =
        let t = set_volumes (erase volume_key k s.resources.volumes) s in
        ground (arith, dump-IsSaved t)
    apply-IsSaved (put_snapshot v) s saved h = dump-IsSaved _ h
    apply-IsSaved (drop_snapshot k) s saved h =
        let t = set_snapshots (erase snapshot_key k s.resources.snapshots) s in
        ground (arith, dump-IsSaved t)
    apply-IsSaved (put_group v) s saved h = dump-IsSaved _ h
    apply-IsSaved (drop_group k) s saved h =
        let t = set_group_snapshots (erase group_key k s.resources.group_snapshots) s in
        ground (arith, dump-IsSaved t)

  -- The changes one after the other, up to the first that fails.
  unfoldable pub apply_all : List Change → Exec (Store W) (Unit {0})
  apply_all [] = pure tt
  apply_all (c ∷ cs) = apply c >> apply_all cs

  apply_all-cons :
      (c : Change) (cs : List Change) (s : Store W)
      → (apply_all (c ∷ cs) s).0 ≡ ok tt
      → ((apply c s).0 ≡ ok tt) × (apply_all (c ∷ cs) s ≡ apply_all cs (apply c s).1)
  unfolding apply_all
  apply_all-cons c cs s h = ground arith

  -- On a disk that reads back what was written, and from a state whose file is in step with it,
  -- after any series of changes that succeed a restart finds exactly what the changes are meant to
  -- leave behind.
  pub restart-apply_all :
      IsFaithful disk
      → (cs : List Change) (s : Store W) → IsSaved s
      → (apply_all cs s).0 ≡ ok tt
      → let t = (apply_all cs s).1 in
        ((new disk t.statefile_path t.world).0 ≡ ok tt)
        × ((new disk t.statefile_path t.world).1.resources ≡ after cs s.resources)
  unfolding after
  restart-apply_all faithful [] s saved h = unfold apply_all in saved
  restart-apply_all faithful (c ∷ cs) s saved h =
      let (fine, e) = apply_all-cons c cs s h in
      rw e (
        rw (← resources-apply c s) (
          restart-apply_all faithful cs (apply c s).1 (apply-IsSaved faithful c s saved fine)
            (ap (λ x. x.0) (sym e) ∙ h)))
