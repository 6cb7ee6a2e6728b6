-- ===== src/HostPath/Publish/Retry.antt =====
-- What NodeUnpublishVolume (pkg/hostpath/nodeserver.go) leaves of a volume, and that it may be repeated.
use csi.Prelude.{
  String, ◌≡◌, refl, sym, ap, subst, Bool-cases, ◌∙◌, true, false, not, some, List, ◌∷◌, ◌++◌, ◌⊎◌,
  inl, inr, ◌==◌, arith,
}
use csi.Exec.{Exec, ok, formatted, ◌>>=◌}
use csi.State.Strings
use csi.State.Strings.{remove_absent, remove-first}
use csi.State.Types.{Volume}
use csi.State.Table.{find, key-find}
use csi.State.Laws.{find-update_volume}
use csi.State.Store.{Store, volume_key, get_volume_by_id, update_volume}
use csi.HostPath.Env.{Env}
use csi.HostPath.Leads.{volumes_of, Frames-call, Frames-fail_with}
use csi.HostPath.Ends.{Ends, Ends-pure, Ends-if, Ends-fail_if, Ends-frame}
use csi.HostPath.Publish.{node_unpublish_volume}
use csi.HostPath.Publish.Refines.{Frames-unmount_if_mounted}

module _ {W A : Type 0} where
  -- Past a lookup of a volume that is there.
  Ends-found :
      {vs : List Volume} (Q : A → List Volume → Type 0) (k : String) (v : Volume)
      (f : Volume → Exec (Store W) A)
      → find volume_key k vs ≡ some v
      → Ends vs Q (f v)
      → Ends vs Q (get_volume_by_id k >>= f)
  unfolding get_volume_by_id
  Ends-found Q k v f found h = record {
    at = λ s e. rw (ap (find volume_key k) e ∙ found) (h.at s e);
  }

module _ {W : Type 0} (env : Env W) where
  abbrev pub unpublished : String → Volume → Volume
  unpublished path v = record v { published = Strings.remove path v.published }

  store-Ends :
      (vs : List Volume) (k path : String) (v : Volume)
      → v.vol_id ≡ k
      → Ends vs
          (λ _ us. find volume_key k us ≡ some (unpublished path v))
          (update_volume env.disk (unpublished path v))
  store-Ends vs k path v e = record {
    at = λ s _ a h.
        subst
          (λ j.
            find volume_key j (volumes_of (update_volume env.disk (unpublished path v) s).1)
            ≡ some (unpublished path v))
          e (find-update_volume env.disk (unpublished path v) s);
  }

  unpublish-Ends :
      (vs : List Volume) (k path : String) (v : Volume)
      → find volume_key k vs ≡ some v
      → v.ephemeral ≡ false
      → Ends vs
          (λ _ us. find volume_key k us ≡ some (unpublished path v))
          (node_unpublish_volume env k path)
  unfolding node_unpublish_volume
  unpublish-Ends vs k path v found lasting = Ends-fail_if _ (k == "") _ _ λ _.
      Ends-fail_if _ (path == "") _ _ λ _. Ends-found _ k v _ found (
        Ends-if _ (not (Strings.has path v.published)) _ _
          (λ absent. Ends-pure _ tt (
            found
            ∙ ap (λ (p : List String). some (record v { published = p }))
                (sym (remove_absent path v.published (ground arith)))))
          λ published. Ends-frame _ _ _ (Frames-call _) λ mounted.
            Ends-frame _ _ _ (Frames-unmount_if_mounted env path mounted) λ _.
              Ends-frame _ _ _ (Frames-call _) λ e.
                Ends-frame _ _ _ (Frames-fail_with e formatted) λ _.
                  Ends-if _ v.ephemeral _ _ (λ p. absurd (cc))
                    λ _. store-Ends vs k path v (key-find volume_key k vs {a = v} found))

  -- The IDs and the path of a call that succeeds are not empty.
  unpublish-named :
      (k path : String) (s : Store W)
      → (node_unpublish_volume env k path s).0 ≡ ok tt
      → ((k == "") ≡ false) × ((path == "") ≡ false)
  unfolding node_unpublish_volume
  unpublish-named k path s h = elim (Bool-cases (k == "")) [
    | inl e ↦ absurd (ground arith)
    | inr e ↦ elim (Bool-cases (path == "")) [ inl e' ↦ absurd (ground arith) | inr e' ↦ (e, e') ]
  ]

  -- Where the path is not published there is nothing to do.
  unpublish_idle :
      (k path : String) (t : Store W) (u : Volume)
      → (k == "") ≡ false
      → (path == "") ≡ false
      → find volume_key k (volumes_of t) ≡ some u
      → Strings.has path u.published ≡ false
      → node_unpublish_volume env k path t ≡ (ok tt, t)
  unfolding node_unpublish_volume get_volume_by_id
  unpublish_idle k path t u named placed found absent = ground arith

  -- Of a volume that is not ephemeral and published at the path, an unpublishing that succeeds has
  -- taken the first occurrence of the path out of the published ones and no other, and changed
  -- nothing else of the volume, whatever the operating system did. Then the path occurs again in
  -- what is left, or to repeat the call succeeds and changes nothing.
  pub unpublish-again :
      (k path : String) (s : Store W) (v : Volume) (before after : List String)
      → find volume_key k (volumes_of s) ≡ some v
      → v.ephemeral ≡ false
      → v.published ≡ before ++ (path ∷ after)
      → Strings.has path before ≡ false
      → (node_unpublish_volume env k path s).0 ≡ ok tt
      → let t = (node_unpublish_volume env k path s).1 in
        (find volume_key k (volumes_of t) ≡ some (record v { published = before ++ after }))
        × ((Strings.has path (before ++ after) ≡ true)
            ⊎ (node_unpublish_volume env k path t ≡ (ok tt, t)))
  unpublish-again k path s v before after found lasting parts first h =
      let t = (node_unpublish_volume env k path s).1 in
      let (named, placed) = unpublish-named k path s h in
      let left = (unpublish-Ends (volumes_of s) k path v found lasting).at s refl tt h in
      let rest : Strings.remove path v.published ≡ before ++ after =
        ap (Strings.remove path) parts ∙ remove-first path before after first in
      let stored : find volume_key k (volumes_of t)
          ≡ some (record v { published = before ++ after }) =
        left ∙ ap (λ (p : List String). some (record v { published = p })) rest in
      (
        stored,
        elim (Bool-cases (Strings.has path (before ++ after))) [
          | inl again ↦ inl again
          | inr gone ↦ inr (
              unpublish_idle k path t (record v { published = before ++ after }) named placed stored
                gone)
        ],
      )
