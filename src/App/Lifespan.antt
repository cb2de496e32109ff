-- ===== src/App/Lifespan.antt =====
-- gateway/app.py, the startup in `lifespan` and _ray_watchdog_loop, on the orchestrator of gateway/orchestrator.py. The VRAM monitor and
-- the HTTP session that the startup opens are left out, as is the shutdown.
pub mod Safety
use dmr.Prelude.{
  ℕ, zero, suc, String, Bool, true, false, Option, none, some, List, str_eq, if◌then◌else◌,
}
use dmr.Config.{VramProfile, Registry, get_profile}
use dmr.Orchestrator.Exec.{St, Exec, pure, catch, ◌>>=◌, ◌>>◌}
use dmr.Orchestrator.Outside.{World}
use dmr.Orchestrator.Outside
use dmr.Orchestrator.Settings.{Settings}
use dmr.Orchestrator.Swap.{switch_profile}
use dmr.Orchestrator.Startup.{cleanup_orphaned_containers, detect_and_adopt_running_profile}
use dmr.Watchdog.{ray_watchdog_tick}

abbrev pub Keyed : Type 0
Keyed = String × VramProfile

-- PROFILES.get(key, default), with the key of what it gives.
unfoldable pub get_or : String → Keyed → Registry → Keyed
unfolding get_profile
get_or key d reg = elim (get_profile key reg) [ some p ↦ (key, p) | none ↦ d ]

-- The profile to load, for the persisted key and PROFILE_DEEPSEEK with its key.
unfoldable pub startup_profile : Registry → Keyed → Option String → Keyed
unfolding get_or
startup_profile reg deepseek none = get_or "deepseek" deepseek reg
startup_profile reg deepseek (some key) =
    let default = get_or "deepseek" deepseek reg in
    if str_eq key "" then default else get_or key default reg

-- What the startup came to: a profile was adopted, or one was switched to.
pub data Started : Type 0 where
  adopted : String → Started
  loaded : Bool → Started

module _ (e : World) (c : Settings) where
  open e use {State}

  unfoldable pub load_profile : Keyed → Exec State Started
  load_profile (key, p) = do
    cleanup_orphaned_containers e c
    success ← switch_profile e c key p false
    pure (loaded success)

  -- `if adopted`: no profile and one with an empty key count as none.
  unfoldable pub unless_adopted : Keyed → Option String → Exec State Started
  unfolding load_profile
  unless_adopted k none = load_profile k
  unless_adopted k (some key) = if str_eq key "" then load_profile k else pure (adopted key)

  -- The first part of lifespan; `persisted` is what load_persisted_profile reads.
  unfoldable pub start : Keyed → Option String → Exec State Started
  unfolding startup_profile unless_adopted
  start deepseek persisted = do
    key ← detect_and_adopt_running_profile e c
    unless_adopted (startup_profile c.registry deepseek persisted) key

  -- One round of _ray_watchdog_loop, for RAY_WATCHDOG_INTERVAL_S.
  unfoldable pub watchdog_round : ℕ → Exec State (Unit {0})
  watchdog_round interval = Outside.sleep e interval >> catch (ray_watchdog_tick e c) (λ _. pure tt)

  -- The first rounds of _ray_watchdog_loop.
  unfoldable pub watchdog_rounds : ℕ → ℕ → Exec State (Unit {0})
  unfolding watchdog_round
  watchdog_rounds interval zero = pure tt
  watchdog_rounds interval (suc n) = watchdog_round interval >> watchdog_rounds interval n

  -- lifespan up to some round of the watchdog, while no request comes in.
  unfoldable pub lifespan : Keyed → Option String → ℕ → ℕ → Exec State (Unit {0})
  unfolding start watchdog_rounds
  lifespan deepseek persisted interval n = do start deepseek persisted; watchdog_rounds interval n
