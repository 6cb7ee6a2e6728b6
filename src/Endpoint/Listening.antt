-- ===== src/Endpoint/Listening.antt =====
-- `Listen` of pkg/endpoint/endpoint.go.
pub mod Opens
use csi.Prelude.{
  ℕ, String, ◌<>◌, ◌≡◌, Bool, true, false, Option, none, some, ◌⊎◌, inl, inr, ◌==◌, if◌then◌else◌,
}
use csi.Exec.{
  Exec, Result, ok, err, panicked, OsError, exist, not_exist, other, formatted, pure, raise, lift,
  continue, ◌>>=◌, ◌>>◌,
}
use csi.Endpoint.{parse}

-- `net.Listen`, `Close` of a listener and `os.Remove`. A listener is its handle.
pub record Sockets (W : Type 0) : Type 0 where
  pub listen : String → String → W → (OsError ⊎ ℕ) × W
  pub close_listener : ℕ → W → W
  pub remove : String → W → Option OsError × W

-- The function that `Listen` returns to clean up.
pub data Cleanup : Type 0 where
  do_nothing : Cleanup
  remove_path : String → Cleanup

-- `l, cleanup, err`, where the error is that of `net.Listen`.
pub record Listened : Type 0 where
  pub bound : OsError ⊎ ℕ
  pub cleanup : Cleanup

-- `err != nil && !os.IsNotExist(err)`
refuses : Option OsError → Bool
refuses none = false
refuses (some not_exist) = false
refuses (some exist) = true
refuses (some other) = true

module _ {W : Type 0} (net : Sockets W) where
  remove_stale : String → Exec W (Unit {0})
  unfolding refuses
  remove_stale path w =
      let (e, w') = net.remove path w in if refuses e then raise formatted w' else pure tt w'

  -- The address to listen on, and the cleanup.
  prepare : String × String → Exec W (String × Cleanup)
  unfolding remove_stale
  prepare (proto, addr) =
      if proto == "unix"
      then (remove_stale ("/" <> addr) >> pure ("/" <> addr, remove_path ("/" <> addr)))
      else pure (addr, do_nothing)

  bind_to : String → String × Cleanup → Exec W Listened
  bind_to proto (addr, cleanup) w =
      let (r, w') = net.listen proto addr w in (ok (record { bound = r; cleanup = cleanup }), w')

  -- `Listen`. An error, unlike a failed `bound`, comes with no cleanup.
  unfoldable pub listen : String → Exec W Listened
  unfolding prepare bind_to
  listen endpoint = do
    parsed ← lift (parse endpoint)
    target ← prepare parsed
    bind_to parsed.0 target

-- `cleanup()`
unfoldable pub clean : {W : Type 0} → Sockets W → Cleanup → W → W
clean net do_nothing w = w
clean net (remove_path path) w = (net.remove path w).1
