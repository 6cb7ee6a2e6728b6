-- ===== src/Main/Branches.antt =====
-- What each course of `main` (main.go) leaves behind.
use csi.Prelude.{ℕ, ◌≡◌, ◌≢◌, Bool, true, false, Option, none, some, ◌==◌}
use csi.Endpoint.Listening.{Sockets}
use csi.Endpoint.Listening.Opens.{IsTracked}
use csi.Proxy.{Proxy}
use csi.Proxy.Opened.{Opened}
use csi.HostPath.Start.{Host, Driver, with_defaults}
use csi.HostPath.Server.{Grpc}
use csi.HostPath.Server.Process.{Process, Reach, ran}
use csi.Main.{
  Flags, Course, bad_flags, version_shown, proxy_failed, driver_failed, driver_crashed, proxied,
  runs, main,
}

module _ {W : Type 0} (net : Sockets W) (host : Host W) (parse_flags : Flags → Option Flags)
    (wait_signal : W → W) (is_open : ℕ → W → Bool) (laws : IsTracked net is_open)
    (quiet : (w : W) (k : ℕ) → is_open k (wait_signal w) ≡ is_open k w) where
  abbrev AsBefore : W → W → Type 0
  AsBefore w w' = (k : ℕ) → is_open k w' ≡ is_open k w

  -- A driver that `Run` was called for never gets past it.
  abbrev pub Endless : Driver → W → Type 0
  Endless d w =
      (grpc : Grpc W) (p : Process W) → Reach net grpc d.config.endpoint w p → p.main ≢ ran

  -- What a proxy leaves.
  abbrev pub Proxied : W → Course × W → Type 0
  Proxied w (proxied p, w') = AsBefore w w'
  Proxied w (proxy_failed, w') = AsBefore w w'
  Proxied w (_, w') = ⊥

  -- What a driver leaves.
  abbrev pub Drives : Flags → Course × W → Type 0
  Drives flags (driver_failed, w') = Unit
  Drives flags (driver_crashed, w') = Unit
  Drives flags (runs d, w') = (d.config ≡ with_defaults flags.cfg) × Endless d w'
  Drives flags (_, w') = ⊥

  -- By the flags: whether the version is asked for, and whether there is no endpoint for a proxy.
  abbrev pub Follows : Bool → Bool → Flags → W → Course × W → Type 0
  Follows true no_proxy flags w r = r ≡ (version_shown, w)
  Follows false true flags w r = Drives flags r
  Follows false false flags w r = Proxied w r

  abbrev pub Leaves : Option Flags → W → Course × W → Type 0
  Leaves none w r = r ≡ (bad_flags, w)
  Leaves (some flags) w r = Follows flags.show_version (flags.proxy_endpoint == "") flags w r
