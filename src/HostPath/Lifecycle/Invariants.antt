-- ===== src/HostPath/Lifecycle/Invariants.antt =====
-- What every step of the life cycle keeps true of the volumes.
use csi.Prelude.{◌≤◌, String, ◌≡◌, ◌≢◌, refl, Bool, true, false, some, List, [], length, All, arith}
use csi.Prelude.Int.{pos, ◌≤ℤ◌, ◌<ℤ◌}
use csi.State.Strings
use csi.State.Strings.{Strings, length-add_of_is_empty, length-remove, is_empty-remove}
use csi.State.Types.{Volume}
use csi.State.Table.{
  find, upsert, key-find, Distinct, upsert-Distinct, erase-Distinct, upsert-All, erase-All,
  find-All,
}
use csi.State.Store.{volume_key, volume_name}
use csi.HostPath.Env.{Config}
use csi.HostPath.Core.{count_attached}
use csi.HostPath.Lifecycle.{
  Step, create, delete, attach, detach, expand, stage, unstage, publish, unpublish, Reach, here,
  next,
}
use csi.HostPath.Lifecycle.Lemmas.{
  upsert-Distinct_other, erase-Distinct_other, find_other-erase, rewrite-Distinct_other,
  count_attached-upsert_found, count_attached-upsert_off, count_attached-erase,
}

-- A volume is no larger than allowed and is staged at one path at most; if the driver attaches volumes
-- and checks their life cycle, a staged volume is attached.
pub record IsSound (cfg : Config) (v : Volume) : Type 0 where
  pub size : v.vol_size ≤ℤ cfg.max_volume_size
  pub one_stage : length v.staged ≤ 1
  pub staged_attached :
      cfg.enable_attach ≡ true
      → cfg.check_volume_lifecycle ≡ true
      → Strings.is_empty v.staged ≡ false
      → v.attached ≡ true

pub record IsValid (cfg : Config) (vs : List Volume) : Type 0 where
  pub ids : Distinct volume_key vs
  pub names : Distinct volume_name vs
  pub sound : All (IsSound cfg) vs
  pub within_limit : pos 0 <ℤ cfg.attach_limit → pos (count_attached vs 0) ≤ℤ cfg.attach_limit

not_staged : (v : Volume) → v.staged ≡ [] → Strings.is_empty v.staged ≢ false
unfolding Strings.is_empty
not_staged v e h = ground arith

module _ (cfg : Config) (vs : List Volume) (valid : IsValid cfg vs) where
  -- A found volume is written again under its ID and name, sound and no less detached.
  rewritten :
      (k : String) (v u : Volume)
      → find volume_key k vs ≡ some v
      → u.vol_id ≡ v.vol_id
      → u.vol_name ≡ v.vol_name
      → IsSound cfg u
      → (pos 0 <ℤ cfg.attach_limit
          → pos (count_attached (upsert volume_key u vs) 0) ≤ℤ cfg.attach_limit)
      → IsValid cfg (upsert volume_key u vs)
  rewritten k v u found e f s limit = record {
    ids = upsert-Distinct volume_key u vs valid.ids;
    names = rewrite-Distinct_other volume_key volume_name k v u vs found e f valid.names;
    sound = upsert-All volume_key (IsSound cfg) u vs s valid.sound;
    within_limit = limit;
  }

  count_same :
      (k : String) (v u : Volume)
      → find volume_key k vs ≡ some v
      → u.vol_id ≡ v.vol_id
      → u.attached ≡ v.attached
      → count_attached (upsert volume_key u vs) 0 ≡ count_attached vs 0
  count_same k v u found e f =
      ground (arith, count_attached-upsert_found u v vs, key-find volume_key k vs {a = v})

  -- The same, where the attachment stays.
  kept :
      (k : String) (v u : Volume)
      → find volume_key k vs ≡ some v
      → u.vol_id ≡ v.vol_id
      → u.vol_name ≡ v.vol_name
      → u.attached ≡ v.attached
      → IsSound cfg u
      → IsValid cfg (upsert volume_key u vs)
  kept k v u found e f g s =
      rewritten k v u found e f s (λ on. rw (count_same k v u found e g) (valid.within_limit on))

  IsSound-at : (k : String) {v : Volume} → find volume_key k vs ≡ some v → IsSound cfg v
  IsSound-at k found = find-All volume_key (IsSound cfg) k vs valid.sound found

  pub Step-IsValid :
      {ephemeral : Bool} {us : List Volume} → Step cfg ephemeral vs us → IsValid cfg us
  Step-IsValid (create v off unstaged unpublished fits fresh e) = rw e record {
    ids = upsert-Distinct volume_key v vs valid.ids;
    names =
        upsert-Distinct_other volume_key volume_name v vs
          (find_other-erase volume_key volume_name v.vol_name v.vol_id vs fresh) valid.names;
    sound =
        upsert-All volume_key (IsSound cfg) v vs
          (record {
            size = fits;
            one_stage = rw unstaged (omega arith);
            staged_attached = λ _ _ h. absurd (not_staged v unstaged h);
          })
          valid.sound;
    within_limit = λ on. ground (arith, valid.within_limit on, count_attached-upsert_off v vs);
  }
  Step-IsValid (delete k e) = rw e record {
    ids = erase-Distinct volume_key k vs valid.ids;
    names = erase-Distinct_other volume_key volume_name k vs valid.names;
    sound = erase-All volume_key (IsSound cfg) k vs valid.sound;
    within_limit = λ on. ground (arith, valid.within_limit on, count_attached-erase k vs);
  }
  Step-IsValid (attach k v readonly found off room e) =
      let u = record v { attached = true; read_only_attach = readonly } in
      let s = IsSound-at k found in
      rw e (
        rewritten k v u found refl refl
          (record { size = s.size; one_stage = s.one_stage; staged_attached = λ _ _ _. refl })
          (λ on.
            ground (
              arith,
              room on,
              count_attached-upsert_found u v vs,
              key-find volume_key k vs {a = v},
            )))
  Step-IsValid (detach k v found unused e) =
      let u = record v { attached = false } in
      let s = IsSound-at k found in
      rw e (
        rewritten k v u found refl refl
          (record {
            size = s.size;
            one_stage = s.one_stage;
            staged_attached = λ _ checked h. cc (h, (unused checked).1);
          })
          (λ on. ground (arith, valid.within_limit on, count_attached-upsert_off u vs)))
  Step-IsValid (expand k v bytes found bigger fits e) =
      let s = IsSound-at k found in
      rw e (
        kept k v (record v { vol_size = bytes }) found refl refl refl
          (record { size = fits; one_stage = s.one_stage; staged_attached = s.staged_attached }))
  Step-IsValid (stage k v path found empty attached e) =
      let s = IsSound-at k found in
      rw e (
        kept k v (record v { staged = Strings.add path v.staged }) found refl refl refl
          (record {
            size = s.size;
            one_stage = omega (arith, length-add_of_is_empty path v.staged empty);
            staged_attached = λ on _ _. attached on;
          }))
  Step-IsValid (unstage k v path found staged unpublished e) =
      let s = IsSound-at k found in
      rw e (
        kept k v (record v { staged = Strings.remove path v.staged }) found refl refl refl
          (record {
            size = s.size;
            one_stage = omega (arith, length-remove path v.staged, s.one_stage);
            staged_attached = λ on checked h.
                s.staged_attached on checked (ground (arith, is_empty-remove path v.staged));
          }))
  Step-IsValid (publish k v path found staged e) =
      let s = IsSound-at k found in
      rw e (
        kept k v (record v { node_id = cfg.node_id; published = Strings.add path v.published })
          found refl refl refl
          (record { size = s.size; one_stage = s.one_stage; staged_attached = s.staged_attached }))
  Step-IsValid (unpublish k v path found published e) =
      let s = IsSound-at k found in
      rw e (
        kept k v (record v { published = Strings.remove path v.published }) found refl refl refl
          (record { size = s.size; one_stage = s.one_stage; staged_attached = s.staged_attached }))

pub Reach-IsValid :
    {cfg : Config} {ephemeral : Bool} {vs us : List Volume}
    → IsValid cfg vs
    → Reach cfg ephemeral vs us
    → IsValid cfg us
Reach-IsValid valid here = valid
Reach-IsValid {cfg} valid (next {ws} r st) = Step-IsValid cfg ws (Reach-IsValid valid r) st
