-- ===== src/HostPath/Start.antt =====
-- `NewHostPathDriver` of pkg/hostpath/hostpath.go, and the quotaer that it falls back on (`emptyQuota` of
-- pkg/xfs/quotaer.go).
pub mod Started
use csi.Prelude.Int.{ℤ, pos, negsuc}
use csi.Prelude.{
  zero, suc, String, ◌≡◌, ◌≢◌, ◌↔◌, refl, sym, ap, ◌∙◌, Bool, true, false, Option, none, some, List,
  [], ◌⊎◌, inl, inr, ◌==◌, if◌then◌else◌, arith, Bool-cases,
}
use csi.Exec.{
  Exec, Result, ok, err, panicked, Error, OsError, formatted, pure, fail_if, fail_with, continue,
  bind-ok, ◌>>=◌, ◌>>◌,
}
use csi.State.Types.{Resources}
use csi.State.Store.{Disk, Store, new}
use csi.HostPath.Env.{Config, Quotaer}
use csi.Xfs.Projects.{Project}
use csi.Xfs.Quotaer.{System, Quotas, new_xfs_quotaer}

-- `DefaultQuotaer`
abbrev pub default_quotaer : {W : Type 0} → Quotaer W
default_quotaer = record {
  add_project = λ directory bhard w. (none, w);
  remove_project = λ directory w. (none, w);
  update_quota = λ directory bhard w. (none, w);
}

-- The default for the size on the node that main.go fills in.
with_default_size : ℤ → Config → Config
with_default_size (pos zero) cfg = record cfg {
  max_volume_expansion_size_node = cfg.max_volume_size;
}
with_default_size (pos (suc n)) cfg = cfg
with_default_size (negsuc n) cfg = cfg

unfoldable pub with_defaults : Config → Config
unfolding with_default_size
with_defaults cfg = with_default_size cfg.max_volume_expansion_size_node cfg

-- What the start calls: the system of the quotaer is that of the state directory.
pub record Host (W : Type 0) : Type 0 where
  pub join : String → String → String
  pub mkdir_all : String → W → Option OsError × W
  pub disk : Disk W
  pub system : String → System W

-- A quotaer over its map of directories, or the default one.
pub data ChosenQuotaer : Type 0 where
  xfs_quotaer : List Project → ChosenQuotaer
  empty_quotaer : ChosenQuotaer

pub record Driver : Type 0 where
  pub config : Config
  pub resources : Resources
  pub statefile_path : String
  pub quotaer : ChosenQuotaer

module _ {W : Type 0} (host : Host W) where
  make_dir : String → Exec W (Option OsError)
  make_dir path w = let (e, w') = host.mkdir_all path w in (ok e, w')

  state_of : Result (Unit {0}) → Resources → Result Resources
  state_of (ok _) resources = ok resources
  state_of (err e) resources = err e
  state_of panicked resources = panicked

  -- `state.New`, of which the store stays when it succeeds
  open_state : String → Exec W Resources
  unfolding state_of
  open_state path w = let (r, s) = new host.disk path w in (state_of r s.resources, s.world)

  choose : Result (Unit {0}) → List Project → Result ChosenQuotaer
  choose (ok _) projects = ok (xfs_quotaer projects)
  choose (err _) projects = ok empty_quotaer
  choose panicked projects = panicked

  -- `NewXfsQuotaer`, and the default one where it fails
  open_quotaer : String → Exec W ChosenQuotaer
  unfolding choose
  open_quotaer state_dir w =
      let (r, q) =
        new_xfs_quotaer (host.system state_dir) (record { directories = []; world = w }) in
      (choose r q.directories, q.world)

  -- `NewHostPathDriver`
  unfoldable pub new_host_path_driver : Config → Exec W Driver
  unfolding make_dir open_state open_quotaer
  new_host_path_driver cfg = do
    fail_if (cfg.driver_name == "") formatted
    fail_if (cfg.node_id == "") formatted
    fail_if (cfg.endpoint == "") formatted
    e ← make_dir cfg.state_dir
    fail_with e formatted
    resources ← open_state (host.join cfg.state_dir "state.json")
    quotaer ← open_quotaer cfg.state_dir
    pure (record {
      config = cfg;
      resources = resources;
      statefile_path = host.join cfg.state_dir "state.json";
      quotaer = quotaer;
    })
