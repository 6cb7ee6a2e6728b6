-- ===== src/HostPath/Groups/Deletion.antt =====
-- What DeleteVolumeGroupSnapshot (pkg/hostpath/groupcontrollerserver.go) leaves behind, on every answer.
use csi.Prelude.{
  String, ◌≡◌, ◌≢◌, refl, sym, subst, ap, ◌∙◌, false, none, some, List, [], ◌∷◌, ◌++◌, All, ◌==◌,
  arith,
}
use csi.Exec.{Exec, Result, ok, err, panicked, continue, ◌>>◌}
use csi.State.Types.{GroupSnapshot, Resources}
use csi.State.Table.{find, Distinct, find-erase, erase-Distinct}
use csi.State.Laws.{Change, drop_snapshot, drop_group, effect, after, resources-apply}
use csi.State.Store.{
  Store, snapshot_key, group_key, get_group_snapshot_by_id, delete_snapshot, delete_group_snapshot,
  dump,
}
use csi.HostPath.Env.{Env, call, get_snapshot_path}
use csi.HostPath.Groups.{delete_snapshots, delete_group, delete_volume_group_snapshot}

-- The changes to the state that a deletion makes, in order.
abbrev pub changes : String → List String → List Change
changes k [] = drop_group k ∷ []
changes k (id ∷ ids) = drop_snapshot id ∷ changes k ids

module _ {W : Type 0} (env : Env W) where
  -- What a deletion leaves of the resources, by its answer: all changes are made, or those before
  -- the one that could not be written, and that one.
  abbrev pub Deleted : String → List String → Resources → Result (Unit {0}) → Resources → Type 0
  Deleted k ids r (ok _) u = u ≡ after (changes k ids) r
  Deleted k ids r (err e) u =
      (done : List Change) × (rest : List Change) × (done ++ rest ≡ changes k ids)
      × (u ≡ after done r)
  Deleted k ids r panicked u = ⊥

  delete_snapshot-calm : (k : String) (s : Store W) → (delete_snapshot env.disk k s).0 ≢ panicked
  unfolding delete_snapshot dump
  delete_snapshot-calm k s h = ground arith

  delete_group-calm : (k : String) (s : Store W) → (delete_group_snapshot env.disk k s).0 ≢ panicked
  unfolding delete_group_snapshot dump
  delete_group-calm k s h = ground arith

  last-Deleted :
      (k : String) (r : Resources) (a : Result (Unit {0})) (u : Resources)
      → a ≢ panicked
      → u ≡ effect (drop_group k) r
      → Deleted k [] r a u
  unfolding after
  last-Deleted k r (ok _) u calm h = h
  last-Deleted k r (err e) u calm h = (drop_group k ∷ [], [], refl, h)
  last-Deleted k r panicked u calm h = calm refl

  cons-Deleted :
      (k id : String) (ids : List String) (r : Resources) (a : Result (Unit {0})) (u : Resources)
      → Deleted k ids (effect (drop_snapshot id) r) a u
      → Deleted k (id ∷ ids) r a u
  unfolding after
  cons-Deleted k id ids r (ok _) u h = h
  cons-Deleted k id ids r (err e) u (done, rest, whole, h) =
      (drop_snapshot id ∷ done, rest, ap (λ (cs : List Change). drop_snapshot id ∷ cs) whole, h)
  cons-Deleted k id ids r panicked u h = h

  -- The snapshots from one on, and then the group
  abbrev from : String → List String → Exec (Store W) (Unit {0})
  from k ids = delete_snapshots env ids >> delete_group_snapshot env.disk k

  abbrev Leaves : String → List String → Resources → Result (Unit {0}) × Store W → Type 0
  Leaves k ids r (a, t) = Deleted k ids r a t.resources

  step-Leaves :
      (k id : String) (ids : List String) (r : Resources)
      → ((s : Store W) → Leaves k ids s.resources (from k ids s))
      → (b : Result (Unit {0})) (s : Store W) → b ≢ panicked
      → s.resources ≡ effect (drop_snapshot id) r
      → Leaves k (id ∷ ids) r (
          continue
            (continue b (λ _. delete_snapshots env ids) s).0
            (λ _. delete_group_snapshot env.disk k)
            (continue b (λ _. delete_snapshots env ids) s).1)
  unfolding after
  step-Leaves k id ids r ih (ok _) s calm e =
      let (a, t) = from k ids s in
      cons-Deleted k id ids r a t.resources (subst (λ v. Deleted k ids v a t.resources) e (ih s))
  step-Leaves k id ids r ih (err x) s calm e = (drop_snapshot id ∷ [], changes k ids, refl, e)
  step-Leaves k id ids r ih panicked s calm e = calm refl

  from-Leaves :
      (k : String) (ids : List String) (s : Store W) → Leaves k ids s.resources (from k ids s)
  unfolding delete_snapshots call
  from-Leaves k [] s =
      last-Deleted k s.resources _ _ (delete_group-calm k s)
        (resources-apply env.disk (drop_group k) s)
  from-Leaves k (id ∷ ids) s =
      let s' = record s { world = (env.remove_all (get_snapshot_path env id) s.world).1 } in
      step-Leaves k id ids s.resources (from-Leaves k ids) _ _ (delete_snapshot-calm id s')
        (resources-apply env.disk (drop_snapshot id) s')

-- No snapshot of the IDs is left, and no group of the ID.
module _ (k : String) where
  absent-after :
      (ids : List String) (r : Resources) (id : String)
      → Distinct snapshot_key r.snapshots
      → find snapshot_key id r.snapshots ≡ none
      → find snapshot_key id (after (changes k ids) r).snapshots ≡ none
  unfolding after
  absent-after [] r id d h = h
  absent-after (j ∷ js) r id d h =
      absent-after js (effect (drop_snapshot j) r) id (erase-Distinct snapshot_key j r.snapshots d)
        (ground (arith, find-erase snapshot_key id j r.snapshots d))

  snapshots-after :
      (ids : List String) (r : Resources)
      → Distinct snapshot_key r.snapshots
      → All (λ id. find snapshot_key id (after (changes k ids) r).snapshots ≡ none) ids
  unfolding after
  snapshots-after [] r d = tt
  snapshots-after (id ∷ ids) r d =
      let less = erase-Distinct snapshot_key id r.snapshots d in
      (
        absent-after ids (effect (drop_snapshot id) r) id less
            (ground (arith, find-erase snapshot_key id id r.snapshots d)),
        snapshots-after ids (effect (drop_snapshot id) r) less,
      )

  group-after :
      (ids : List String) (r : Resources)
      → Distinct group_key r.group_snapshots
      → find group_key k (after (changes k ids) r).group_snapshots ≡ none
  unfolding after
  group-after [] r d = ground (arith, find-erase group_key k k r.group_snapshots d)
  group-after (id ∷ ids) r d = group-after ids (effect (drop_snapshot id) r) d

module _ {W : Type 0} (env : Env W) where
  -- A deletion of a group that is there, by its answer
  abbrev pub Outcome : String → List String → Resources → Result (Unit {0}) → Resources → Type 0
  Outcome k ids r (ok _) u =
      (u ≡ after (changes k ids) r)
      × (find group_key k u.group_snapshots ≡ none)
      × All (λ id. find snapshot_key id u.snapshots ≡ none) ids
  Outcome k ids r (err e) u = Deleted env k ids r (err e) u
  Outcome k ids r panicked u = ⊥

  Deleted-Outcome :
      (k : String) (ids : List String) (r : Resources) (a : Result (Unit {0})) (u : Resources)
      → Distinct snapshot_key r.snapshots
      → Distinct group_key r.group_snapshots
      → Deleted env k ids r a u
      → Outcome k ids r a u
  Deleted-Outcome k ids r (ok _) u d d' h = (
    h,
    ap (λ (v : Resources). find group_key k v.group_snapshots) h ∙ group-after k ids r d',
    subst (λ (v : Resources). All (λ id. find snapshot_key id v.snapshots ≡ none) ids) (sym h)
        (snapshots-after k ids r d),
  )
  Deleted-Outcome k ids r (err e) u d d' h = h
  Deleted-Outcome k ids r panicked u d d' h = h

  -- Where IDs are distinct, a deletion of a group that is there never panics. If it succeeds, it
  -- has taken out the snapshots of the group one after the other and then the group, and none of
  -- them is left. If it fails, it has made the first of these changes, in the same order, and no
  -- other.
  pub delete_group-Outcome :
      (k : String) (g : GroupSnapshot) (s : Store W)
      → k ≢ ""
      → find group_key k s.resources.group_snapshots ≡ some g
      → Distinct snapshot_key s.resources.snapshots
      → Distinct group_key s.resources.group_snapshots
      → let (a, t) = delete_volume_group_snapshot env k s in
        Outcome k g.snapshot_ids s.resources a t.resources
  unfolding delete_volume_group_snapshot delete_group get_group_snapshot_by_id
  delete_group-Outcome k g s named found d d' =
      let named' : (k == "") ≡ false = ground arith in
      let (a, t) = from env k g.snapshot_ids s in
      let done =
        Deleted-Outcome k g.snapshot_ids s.resources a t.resources d d'
          (from-Leaves env k g.snapshot_ids s) in
      rw (named', found) done
