-- ===== src/Main.antt =====
-- `main` of main.go: the flags with their defaults, and what the process does with them.
pub mod Branches
use csi.Prelude.{
  ℕ, String, Bool, true, false, Option, none, some, List, [], ◌==◌, if◌then◌else◌, ◌<>◌,
}
use csi.Prelude.Int.{ℤ, pos}
use csi.Exec.{Result, ok, err, panicked}
use csi.Endpoint.Listening.{Sockets}
use csi.Proxy.{Proxy, run, close}
use csi.HostPath.Env.{Config}
use csi.HostPath.Start.{Host, Driver, with_defaults, new_host_path_driver}

-- The values that the flags set: `cfg`, `*showVersion` and `*proxyEndpoint`.
pub record Flags : Type 0 where
  pub cfg : Config
  pub show_version : Bool
  pub proxy_endpoint : String

-- The values before `flag.Parse`
unfoldable pub default_flags : String → Flags
default_flags version = record {
  cfg = record {
    driver_name = "hostpath.csi.k8s.io";
    endpoint = "unix://tmp/csi.sock";
    proxy_endpoint = "";
    node_id = "";
    vendor_version = version;
    state_dir = "/csi-data-dir/csi-driver-host-path";
    max_volumes_per_node = pos 0;
    max_volume_size = pos 1099511627776;
    attach_limit = pos 0;
    capacity = [];
    ephemeral = false;
    show_version = false;
    enable_attach = false;
    enable_topology = true;
    enable_volume_expansion = true;
    enable_controller_modify_volume = false;
    accepted_mutable_parameter_names = [];
    disable_controller_expansion = false;
    disable_node_expansion = false;
    max_volume_expansion_size_node = pos 0;
    check_volume_lifecycle = false;
  };
  show_version = false;
  proxy_endpoint = "";
}

-- How `main` ends; with a driver it goes on to `driver.Run()`.
pub data Course : Type 0 where
  bad_flags version_shown proxy_failed proxy_crashed driver_failed driver_crashed : Course
  proxied : Proxy → Course
  runs : Driver → Course

module _ {W : Type 0} (net : Sockets W) (host : Host W) (parse_flags : Flags → Option Flags)
    -- What happens until a signal comes
    (wait_signal : W → W) where
  -- The two deferred calls close the proxy, and cancel a context that is not used any more.
  after_proxy : Result Proxy × W → Course × W
  after_proxy (ok p, w) = let (p', w') = close net p (wait_signal w) in (proxied p', w')
  after_proxy (err e, w) = (proxy_failed, w)
  after_proxy (panicked, w) = (proxy_crashed, w)

  after_start : Result Driver × W → Course × W
  after_start (ok d, w) = (runs d, w)
  after_start (err e, w) = (driver_failed, w)
  after_start (panicked, w) = (driver_crashed, w)

  start_driver : Config → W → Course × W
  unfolding after_start
  start_driver cfg w = after_start (new_host_path_driver host (with_defaults cfg) w)

  with_flags : Flags → W → Course × W
  unfolding after_proxy start_driver
  with_flags flags w =
      if flags.show_version
      then (version_shown, w)
      else if flags.proxy_endpoint == ""
      then start_driver flags.cfg w
      else after_proxy (run net flags.cfg.endpoint flags.proxy_endpoint w)

  parsed : Option Flags → W → Course × W
  unfolding with_flags
  parsed none w = (bad_flags, w)
  parsed (some flags) w = with_flags flags w

  -- `main`
  unfoldable pub main : String → W → Course × W
  unfolding parsed
  main version w = parsed (parse_flags (default_flags version)) w
