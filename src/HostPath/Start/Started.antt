-- ===== src/HostPath/Start/Started.antt =====
-- What a start of the driver that succeeds has found.
use csi.Prelude.{
  ◌≡◌, refl, sym, ap, ◌∙◌, Bool, true, false, Option, none, some, List, [], ◌⊎◌, inl, inr, ◌==◌,
}
use csi.Exec.{
  Exec, Result, ok, err, panicked, Error, OsError, formatted, fail_if, fail_with, continue-ok, ◌>>◌,
}
use csi.State.Types.{Resources}
use csi.State.Store.{new}
use csi.HostPath.Env.{Config}
use csi.Xfs.Projects.{Project}
use csi.Xfs.Quotaer.{new_xfs_quotaer}
use csi.HostPath.Start.{
  Host, Driver, ChosenQuotaer, xfs_quotaer, empty_quotaer, make_dir, state_of, open_state, choose,
  open_quotaer, new_host_path_driver,
}

module _ {S B : Type 0} where
  fail_if-ok :
      (b : Bool) (e : Error) (m : Exec S B) (s t : S) (x : B)
      → (fail_if b e >> m) s ≡ (ok x, t)
      → (b ≡ false) × (m s ≡ (ok x, t))
  fail_if-ok true e m s t x h = cc
  fail_if-ok false e m s t x h = (refl, h)

  fail_with-ok :
      (o : Option OsError) (e : Error) (m : Exec S B) (s t : S) (x : B)
      → (fail_with o e >> m) s ≡ (ok x, t)
      → (o ≡ none) × (m s ≡ (ok x, t))
  fail_with-ok none e m s t x h = (refl, h)
  fail_with-ok (some o) e m s t x h = cc

ok_path : (x y : Driver) → ◌≡◌ {A = Result Driver} (ok x) (ok y) → x ≡ y
ok_path x y h = cc

module _ {W : Type 0} (host : Host W) where
  state_of-ok :
      (r : Result (Unit {0})) (stored found : Resources)
      → state_of host r stored ≡ ok found
      → (r ≡ ok tt) × (found ≡ stored)
  unfolding state_of
  state_of-ok (ok _) stored found h = (refl, cc)
  state_of-ok (err e) stored found h = cc
  state_of-ok panicked stored found h = cc

  -- A quotaer over the projects that NewXfsQuotaer left, or the default one after an error of it.
  abbrev pub Chosen : Result (Unit {0}) → List Project → ChosenQuotaer → Type 0
  Chosen r projects q =
      ((r ≡ ok tt) × (q ≡ xfs_quotaer projects)) ⊎ ((e : Error) × (r ≡ err e) × (q ≡ empty_quotaer))

  choose-ok :
      (r : Result (Unit {0})) (projects : List Project) (q : ChosenQuotaer)
      → choose host r projects ≡ ok q
      → Chosen r projects q
  unfolding choose
  choose-ok (ok _) projects q h = inl (refl, cc)
  choose-ok (err e) projects q h = inr (e, refl, cc)
  choose-ok panicked projects q h = cc

  -- What the driver holds, for the world before the start.
  abbrev pub Started : Config → W → Driver → Type 0
  Started cfg w d =
      let path = host.join cfg.state_dir "state.json" in
      let (e, w1) = host.mkdir_all cfg.state_dir w in
      let (r, s) = new host.disk path w1 in
      let (r', q) =
        new_xfs_quotaer (host.system cfg.state_dir)
          (record { directories = []; world = s.world }) in
      ((cfg.driver_name == "") ≡ false)
      × ((cfg.node_id == "") ≡ false)
      × ((cfg.endpoint == "") ≡ false)
      × (e ≡ none)
      × (r ≡ ok tt)
      × (d.config ≡ cfg)
      × (d.resources ≡ s.resources)
      × (d.statefile_path ≡ path)
      × Chosen r' q.directories d.quotaer

  -- A start of the driver that succeeds was given a driver name, a node ID and an endpoint, made
  -- the state directory, and holds the configuration, the resources that the state file gave
  -- without an error, and a quotaer over the projects that NewXfsQuotaer left, or the default one
  -- after an error of it.
  pub new_host_path_driver-Started :
      (cfg : Config) (w w' : W) (d : Driver)
      → new_host_path_driver host cfg w ≡ (ok d, w')
      → Started cfg w d
  unfolding new_host_path_driver make_dir open_state open_quotaer
  new_host_path_driver-Started cfg w w' d h =
      let path = host.join cfg.state_dir "state.json" in
      let (named, h1) = fail_if-ok (cfg.driver_name == "") formatted _ w w' d h in
      let (placed, h2) = fail_if-ok (cfg.node_id == "") formatted _ w w' d h1 in
      let (reached, h3) = fail_if-ok (cfg.endpoint == "") formatted _ w w' d h2 in
      let (e, w1) = host.mkdir_all cfg.state_dir w in
      let (made, h4) = fail_with-ok e formatted _ w1 w' d h3 in
      let (r, s) = new host.disk path w1 in
      let (found, read, h5) = continue-ok (state_of host r s.resources) _ s.world w' d h4 in
      let (fine, same) = state_of-ok r s.resources found read in
      let (r', q) =
        new_xfs_quotaer (host.system cfg.state_dir)
          (record { directories = []; world = s.world }) in
      let (chosen, got, h6) = continue-ok (choose host r' q.directories) _ q.world w' d h5 in
      let built : Driver = record {
        config = cfg;
        resources = found;
        statefile_path = path;
        quotaer = chosen;
      } in
      let whole = ok_path built d (ap (λ (x : Result Driver × W). x.0) h6) in
      (
        named,
        placed,
        reached,
        made,
        fine,
        sym (ap (λ (x : Driver). x.config) whole),
        sym (ap (λ (x : Driver). x.resources) whole) ∙ same,
        sym (ap (λ (x : Driver). x.statefile_path) whole),
        choose-ok r' q.directories d.quotaer (got ∙ ap (λ (x : Driver). ok x.quotaer) whole),
      )
