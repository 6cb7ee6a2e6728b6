-- ===== src/HostPath/Controller/Success.antt =====
-- What `CreateVolume` and `DeleteVolume` leave behind when they succeed, and when they are retried.
use csi.Prelude.{
  String, ◌≡◌, ◌≢◌, refl, sym, ap, subst, ◌∙◌, false, Option, none, some, List, [], ◌∷◌, ◌⊎◌, inl,
  inr, ==-refl, arith,
}
use csi.Prelude.Int.{ℤ, ◌≤ℤ◌, ltb_ℤ}
use csi.Exec.{Error, ok, err, status, not_found, already_exists}
use csi.State.Types.{AccessType, Volume}
use csi.State.Table.{find, upsert}
use csi.State.Store.{Store, volume_key, volume_name}
use csi.HostPath.Env.{Env}
use csi.HostPath.Requests.{
  ContentSource, from_volume, CreateVolumeRequest, VolumeInfo, required_bytes,
}
use csi.HostPath.Core.{new_volume}
use csi.HostPath.Core.Success.{HasRoom, create_hostpath-Ends}
use csi.HostPath.Controller.{
  undo_on_error, populate_from, create_or_reuse, create_volume, volume_info, check_content_source,
}
use csi.HostPath.Controller.Refines.{Frames-populate}
use csi.HostPath.Leads.{volumes_of, Frames-call, Frames-attempt}
use csi.HostPath.Ends.{Ends, Ends-pure, Ends-raise, Ends-bind, Ends-frame, Ends-attempt_name}
use csi.HostPath.Controller.Checks.{create_volume-past_checks, create_volume-taken}

module _ {W : Type 0} (env : Env W) where
  undo_on_error-Ends :
      (vs : List Volume) (volume_id : String) (r : Error ⊎ Unit {0})
      → Ends vs (λ _ us. us ≡ vs) (undo_on_error env volume_id r)
  unfolding undo_on_error
  undo_on_error-Ends vs volume_id (inr _) = Ends-pure _ tt refl
  undo_on_error-Ends vs volume_id (inl e) =
      Ends-bind (λ _ _. Unit {0}) _ _ _ (record { at = λ _ _ _ _. tt }) λ _ us _. Ends-raise _ e

  populate_from-Ends :
      (vs : List Volume) (req : CreateVolumeRequest) (access_type : AccessType) (volume_id : String)
      (source : Option ContentSource)
      → req.volume_content_source ≡ source
      → Ends vs (λ _ us. us ≡ vs) (populate_from env req access_type volume_id)
  unfolding populate_from
  populate_from-Ends vs req access_type volume_id none e =
      rw (e, populate_from) (Ends-pure _ tt refl)
  populate_from-Ends vs req access_type volume_id (some source) e =
      rw (e, populate_from)
        (Ends-frame _ _ _ (Frames-attempt _ (Frames-populate env _ access_type _ source))
          λ r. undo_on_error-Ends vs volume_id r)

  -- The volume that a successful request has stored under its name.
  abbrev pub Stored : CreateVolumeRequest → VolumeInfo → List Volume → List Volume → Type 0
  Stored req info vs us =
      (v : Volume) × (access_type : AccessType) × (us ≡ upsert volume_key v vs)
      × (v
          ≡ new_volume env info.volume_id req.name (required_bytes req.capacity_range) access_type
              false v.kind)
      × (info ≡ volume_info env req v.vol_id v.vol_size)
      × (v.vol_size ≤ℤ env.config.max_volume_size)
      × HasRoom env v.vol_size vs v.kind

  create-Ends :
      (vs : List Volume) (req : CreateVolumeRequest) (access_type : AccessType) (e : Error)
      → Ends vs (λ info us. Stored req info vs us) (create_or_reuse env req access_type (inl e))
  unfolding create_or_reuse
  create-Ends vs req access_type e = Ends-frame _ _ _ (Frames-call _) λ volume_id.
      Ends-bind _ _ _ _ (create_hostpath-Ends env vs volume_id req.name _ access_type false _)
        λ v us (made, stored, fits, room).
          Ends-bind (λ _ ws. ws ≡ us) _ _ _ (populate_from-Ends us req access_type volume_id _ refl)
            λ _ ws same. Ends-pure _ _ (
              v,
              access_type,
              same ∙ stored,
              made,
              ap (λ (u : Volume). volume_info env req u.vol_id u.vol_size) (sym made),
              rw made fits,
              rw made room,
            )

  -- A request for a name that is not taken, when it succeeds, has written exactly one volume to
  -- the state, with that name and the ID of the answer and of the size asked for, which is within
  -- the limit and for which the volume's kind had room.
  pub create_volume-Stored :
      (req : CreateVolumeRequest) (s : Store W) (info : VolumeInfo)
      → find volume_name req.name (volumes_of s) ≡ none
      → (create_volume env req s).0 ≡ ok info
      → Stored req info (volumes_of s) (volumes_of (create_volume env req s).1)
  create_volume-Stored req s info fresh h =
      let (access_type, past) = create_volume-past_checks env req s h in
      let at_end =
        (Ends-attempt_name (λ i us. Stored req i (volumes_of s) us) req.name
            (create_or_reuse env req access_type)
            (λ _. create-Ends (volumes_of s) req access_type (status not_found))
            (λ v found. absurd (ground arith))).at
          s refl info (ap (λ x. x.0) (sym (past s)) ∙ h) in
      subst (λ x. Stored req info (volumes_of s) (volumes_of x.1)) (sym (past s)) at_end

  -- A new volume is found under its name.
  find_name-upsert :
      (v : Volume) (vs : List Volume)
      → find volume_name v.vol_name vs ≡ none
      → find volume_name v.vol_name (upsert volume_key v vs) ≡ some v
  unfolding find upsert
  find_name-upsert v [] h = ground (arith, ==-refl v.vol_name)
  find_name-upsert v (x ∷ vs) h = ground (arith, ==-refl v.vol_name, find_name-upsert v vs)

  taken :
      (v : Volume) (name : String) (vs : List Volume) {us : List Volume}
      → find volume_name name vs ≡ none
      → v.vol_name ≡ name
      → us ≡ upsert volume_key v vs
      → find volume_name name us ≡ some v
  taken v name vs fresh e stored = rw stored (
      subst (λ n. find volume_name n (upsert volume_key v vs) ≡ some v) e
        (find_name-upsert v vs (subst (λ n. find volume_name n vs ≡ none) (sym e) fresh)))

  irrefl : (a : ℤ) → ltb_ℤ a a ≡ false
  irrefl a = ground arith

  reuse-same :
      (req : CreateVolumeRequest) (access_type : AccessType) (v : Volume) (t : Store W)
      → req.volume_content_source ≡ none
      → v.vol_size ≡ required_bytes req.capacity_range
      → create_or_reuse env req access_type (inr v) t
        ≡ (ok (volume_info env req v.vol_id v.vol_size), t)
  unfolding create_or_reuse check_content_source
  reuse-same req access_type v t e f = rw (e, f, irrefl (required_bytes req.capacity_range)) refl

  reuse-clone :
      (req : CreateVolumeRequest) (source : String) (access_type : AccessType) (v : Volume)
      (t : Store W)
      → req.volume_content_source ≡ some (from_volume (some source))
      → v.vol_size ≡ required_bytes req.capacity_range
      → v.parent_vol_id ≡ ""
      → source ≢ ""
      → create_or_reuse env req access_type (inr v) t ≡ (err (status already_exists), t)
  unfolding create_or_reuse check_content_source
  reuse-clone req source access_type v t e f g named = ground arith

  -- The same CreateVolume request again, without a content source, after a success on a name that
  -- was not taken, answers the same and changes nothing.
  pub create_volume-retry :
      (req : CreateVolumeRequest) (s : Store W) (info : VolumeInfo)
      → find volume_name req.name (volumes_of s) ≡ none
      → req.volume_content_source ≡ none
      → (create_volume env req s).0 ≡ ok info
      → let t = (create_volume env req s).1 in create_volume env req t ≡ (ok info, t)
  create_volume-retry req s info fresh no_source h =
      let t = (create_volume env req s).1 in
      let (access_type, past) = create_volume-past_checks env req s h in
      let (v, _, stored, made, answer, _, _) = create_volume-Stored req s info fresh h in
      let found =
        taken v req.name (volumes_of s) fresh (ap (λ (u : Volume). u.vol_name) made) stored in
      let size = ap (λ (u : Volume). u.vol_size) made in
      past t
      ∙ create_volume-taken env req access_type v t found
      ∙ reuse-same req access_type v t no_source size
      ∙ ap (λ i. (ok i, t)) (sym answer)

  -- A request for a copy of a volume that it names by an ID, which had succeeded on a name that
  -- was not taken, fails with AlreadyExists when it is repeated: the new volume does not remember
  -- what it was copied from.
  pub clone-retry :
      (req : CreateVolumeRequest) (source : String) (s : Store W) (info : VolumeInfo)
      → find volume_name req.name (volumes_of s) ≡ none
      → req.volume_content_source ≡ some (from_volume (some source))
      → source ≢ ""
      → (create_volume env req s).0 ≡ ok info
      → let t = (create_volume env req s).1 in
        create_volume env req t ≡ (err (status already_exists), t)
  clone-retry req source s info fresh copies named h =
      let t = (create_volume env req s).1 in
      let (access_type, past) = create_volume-past_checks env req s h in
      let (v, _, stored, made, answer, _, _) = create_volume-Stored req s info fresh h in
      let found =
        taken v req.name (volumes_of s) fresh (ap (λ (u : Volume). u.vol_name) made) stored in
      let size = ap (λ (u : Volume). u.vol_size) made in
      let parent = ap (λ (u : Volume). u.parent_vol_id) made in
      past t
      ∙ create_volume-taken env req access_type v t found
      ∙ reuse-clone req source access_type v t copies size parent named
