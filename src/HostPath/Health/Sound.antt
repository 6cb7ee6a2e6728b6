-- ===== src/HostPath/Health/Sound.antt =====
-- What the health check of the controller side answers, and that it only answers.
use csi.Prelude.{
  String, ◌≡◌, ◌≢◌, ◌↔◌, refl, Bool, true, false, not, Option, none, some, ◌⊎◌, inl, inr, arith,
}
use csi.Prelude.Int.{pos, ltb_ℤ}
use csi.Exec.{Exec, OsError, not_exist, exist, other, Result, ok, pure, attempt, continue, ◌>>=◌}
use csi.State.Types.{Volume}
use csi.State.Table.{find}
use csi.State.Store.{Store, volume_key, or_not_found, get_volume_by_id}
use csi.HostPath.Env.{Env, FileMode, FsInfo, call, get_volume_path}
use csi.HostPath.Health.{
  Message, no_text, source_missing, too_small, no_space, found, or_formatted, or_os_error,
  after_check, check, check_path_exist, check_pv_capacity_valid, check_pv_usage,
  do_health_check_in_controller_side,
}

module _ {W : Type 0} (env : Env W) where
  abbrev pub Healthy : Result (Bool × Message) → Type 0
  Healthy r = r ≡ ok (true, no_text)

  -- The part of a check after its call into the system.
  abbrev judged :
      Message
      → Exec (Store W) (Bool × Message)
      → Exec (Store W) Bool
      → Exec (Store W) (Bool × Message)
  judged text next m = attempt m >>= after_check env text next

  step_iff :
      (text : Message) (next : Exec (Store W) (Bool × Message)) (b : Bool) (s : Store W)
      → text ≢ no_text
      → Healthy (after_check env text next (inr b) s).0 ↔ ((b ≡ true) × Healthy (next s).0)
  unfolding after_check
  step_iff text next true s fails = ((λ h. (refl, h)), λ h. h.1)
  step_iff text next false s fails = ((λ h. cc), λ h. cc)

  usage_iff :
      (out : OsError ⊎ FsInfo) (s : Store W)
      → Healthy
          (judged no_space
            (pure (true, no_text))
            (or_os_error env out >>= λ info. pure (ltb_ℤ (pos 0) info.available))
            s).0
        ↔ ((info : FsInfo) × (out ≡ inr info) × (ltb_ℤ (pos 0) info.available ≡ true))
  unfolding or_os_error after_check
  usage_iff (inl e) s = ((λ h. cc), λ h. cc)
  usage_iff (inr info) s =
      let (to, back) =
        step_iff no_space (pure (true, no_text)) (ltb_ℤ (pos 0) info.available) s (λ e. cc) in
      ((λ h. (info, refl, (to h).0)), λ h. back (ground arith, refl))

  size_iff :
      (info : FsInfo) (stored : Option Volume) (next : Exec (Store W) (Bool × Message))
      (s : Store W)
      → Healthy
          (judged too_small next
            (λ u.
              continue
                (or_not_found stored)
                (λ volume. pure (not (ltb_ℤ info.capacity volume.vol_size)))
                u)
            s).0
        ↔ ((volume : Volume) × (stored ≡ some volume)
            × (ltb_ℤ info.capacity volume.vol_size ≡ false)
            × Healthy (next s).0)
  unfolding after_check
  size_iff info none next s = ((λ h. cc), λ h. cc)
  size_iff info (some volume) next s =
      let (to, back) =
        step_iff too_small next (not (ltb_ℤ info.capacity volume.vol_size)) s (λ e. cc) in
      (
        (λ h. (volume, refl, ground (arith, to h), (to h).1)),
        λ (v, same, fits, h). back (ground arith, h),
      )

  capacity_iff :
      (vol_id : String) (out : OsError ⊎ FsInfo) (next : Exec (Store W) (Bool × Message))
      (s : Store W)
      → Healthy
          (judged too_small next
            (or_formatted env out >>= λ info.
              (get_volume_by_id vol_id >>= λ volume.
              pure (not (ltb_ℤ info.capacity volume.vol_size))))
            s).0
        ↔ ((info : FsInfo) × (volume : Volume) × (out ≡ inr info)
            × (find volume_key vol_id s.resources.volumes ≡ some volume)
            × (ltb_ℤ info.capacity volume.vol_size ≡ false)
            × Healthy (next s).0)
  unfolding or_formatted get_volume_by_id after_check
  capacity_iff vol_id (inl e) next s = ((λ h. cc), λ h. cc)
  capacity_iff vol_id (inr info) next s =
      let (to, back) = size_iff info (find volume_key vol_id s.resources.volumes) next s in
      (
        (λ h. let (v, a, b, c) = to h in (info, v, refl, a, b, c)),
        λ (i, v, same, a, b, c). back (v, a, ground arith, c),
      )

  path_iff :
      (out : OsError ⊎ FileMode) (next : Exec (Store W) (Bool × Message)) (s : Store W)
      → Healthy (judged source_missing next (found env out) s).0
        ↔ ((mode : FileMode) × (out ≡ inr mode) × Healthy (next s).0)
  unfolding found after_check
  path_iff (inr mode) next s = ((λ h. (mode, refl, h)), λ (m, same, h). h)
  path_iff (inl not_exist) next s = ((λ h. cc), λ h. cc)
  path_iff (inl exist) next s = ((λ h. cc), λ h. cc)
  path_iff (inl other) next s = ((λ h. cc), λ h. cc)

  -- What a volume needs to be reported healthy, from the world on in which the check starts: the three calls
  -- into the system are made one after the other.
  abbrev pub IsSound : String → Store W → Type 0
  IsSound vol_id s =
      let path = get_volume_path env vol_id in
      let (info, w) = env.stat path s.world in
      let (first, w') = env.probes.fs_info path w in
      let (second, w'') = env.probes.fs_info path w' in
      (mode : FileMode) × (info ≡ inr mode)
      × (fs : FsInfo) × (volume : Volume) × (first ≡ inr fs)
      × (find volume_key vol_id s.resources.volumes ≡ some volume)
      × (ltb_ℤ fs.capacity volume.vol_size ≡ false)
      × (later : FsInfo) × (second ≡ inr later)
      × (ltb_ℤ (pos 0) later.available ≡ true)

  -- The health check of the controller side answers that a volume is healthy, with no text,
  -- exactly when its path exists, its file system can be asked twice in a row, the volume is in
  -- the state, the file system was no smaller than the volume the first time and had bytes
  -- available the second time.
  pub health_check_iff :
      (vol_id : String) (s : Store W)
      → Healthy (do_health_check_in_controller_side env vol_id s).0 ↔ IsSound vol_id s
  unfolding do_health_check_in_controller_side check check_path_exist check_pv_capacity_valid
      check_pv_usage call get_volume_by_id
  health_check_iff vol_id s =
      let path = get_volume_path env vol_id in
      let (info, w) = env.stat path s.world in
      let (first, w') = env.probes.fs_info path w in
      let (second, w'') = env.probes.fs_info path w' in
      let last = check env (check_pv_usage env vol_id) no_space (pure (true, no_text)) in
      let middle = check env (check_pv_capacity_valid env vol_id) too_small last in
      let (exists, exists_back) = path_iff info middle (record s { world = w }) in
      let (fits, fits_back) = capacity_iff vol_id first last (record s { world = w' }) in
      let (free, free_back) = usage_iff second (record s { world = w'' }) in
      (
        (λ h.
            let (mode, a, h1) = exists h in
            let (fs, volume, b, c, d, h2) = fits h1 in
            let (later, e, f) = free h2 in (mode, a, fs, volume, b, c, d, later, e, f)),
        λ (mode, a, fs, volume, b, c, d, later, e, f).
            exists_back (mode, a, fits_back (fs, volume, b, c, d, free_back (later, e, f))),
      )
