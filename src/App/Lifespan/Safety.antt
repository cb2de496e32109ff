-- ===== src/App/Lifespan/Safety.antt =====
-- The startup and the watchdog leave external containers alone.
use dmr.Prelude.{
  ℕ, zero, suc, String, Bool, true, false, Option, none, some, [], ◌∷◌, str_eq, if◌then◌else◌, ◌≡◌,
  All,
}
use dmr.Config.{Registry, is_exec, get_profile}
use dmr.Orchestrator.Exec.{St, error}
use dmr.Orchestrator.Exec.Preserves.{
  Preserves, Preserves-pure, Preserves-bind, Preserves-if, Preserves-catch,
}
use dmr.Orchestrator.Outside.{World}
use dmr.Orchestrator.Settings.{Settings}
use dmr.Orchestrator.Cluster.{sleep-Preserves}
use dmr.Orchestrator.Lifecycle.{is_live}
use dmr.Orchestrator.Startup.Safety.{cleanup-IsUntouched}
use dmr.Orchestrator.Startup.Adoption.{IsSafeProfile, detect_and_adopt-Preserves}
use dmr.Orchestrator.Ownership.{IsUntouched, untouched, set_state-Preserves}
use dmr.Orchestrator.Ownership.Switch.{switch_profile-IsUntouched}
use dmr.Watchdog.Passes.{IsMarkable, ray_watchdog_tick-Preserves}
use dmr.App.Lifespan.{
  Keyed, get_or, startup_profile, load_profile, unless_adopted, start, watchdog_round,
  watchdog_rounds, lifespan,
}

get_or-Safe :
    (c : Settings) (key : String) (d : Keyed) (reg : Registry)
    → All (λ k. IsSafeProfile c k.1) reg
    → IsSafeProfile c d.1
    → IsSafeProfile c (get_or key d reg).1
unfolding get_or get_profile
get_or-Safe c key d [] r h = h
get_or-Safe c key d ((j, p) ∷ reg) (q, r) h = pick (str_eq j key) (get_or-Safe c key d reg r h)
  where
    pick :
        (b : Bool)
        → IsSafeProfile c (get_or key d reg).1
        → IsSafeProfile c
            (elim (if b then some p else get_profile key reg) as (λ o. Keyed) [
              | some x ↦ (key, x)
              | none ↦ d
            ]).1
    pick true rest = q
    pick false rest = rest

startup_profile-Safe :
    (c : Settings) (d : Keyed) (o : Option String)
    → All (λ k. IsSafeProfile c k.1) c.registry
    → IsSafeProfile c d.1
    → IsSafeProfile c (startup_profile c.registry d o).1
unfolding startup_profile
startup_profile-Safe c d none r h = get_or-Safe c "deepseek" d c.registry r h
startup_profile-Safe c d (some key) r h = pick (str_eq key "")
  where
    pick :
        (b : Bool)
        → IsSafeProfile c
            (if b
              then get_or "deepseek" d c.registry
              else get_or key (get_or "deepseek" d c.registry) c.registry).1
    pick true = get_or-Safe c "deepseek" d c.registry r h
    pick false = get_or-Safe c key _ c.registry r (get_or-Safe c "deepseek" d c.registry r h)

module _ (e : World) (c : Settings) where
  markable : IsMarkable {W = e.State} (IsUntouched c)
  unfolding is_live
  markable = record {
    frame = untouched c;
    marks = λ n. set_state-Preserves c n error (λ x. absurd (cc x));
  }

  load_profile-Preserves :
      (k : Keyed)
      → All (λ m. is_exec m.engine ≡ true) c.all_models
      → IsSafeProfile c k.1
      → Preserves (IsUntouched c) (load_profile e c k)
  unfolding load_profile
  load_profile-Preserves (key, p) q (x, y) =
      Preserves-bind _ _ (record { outcome = cleanup-IsUntouched e c q })
        λ _.
          Preserves-bind _ _ (record { outcome = switch_profile-IsUntouched e c key p false x y })
            λ s. Preserves-pure _

  unless_adopted-Preserves :
      (k : Keyed) (o : Option String)
      → All (λ m. is_exec m.engine ≡ true) c.all_models
      → IsSafeProfile c k.1
      → Preserves (IsUntouched c) (unless_adopted e c k o)
  unfolding unless_adopted
  unless_adopted-Preserves k none q h = load_profile-Preserves k q h
  unless_adopted-Preserves k (some key) q h =
      Preserves-if (str_eq key "") _ _ (λ _. load_profile-Preserves k q h) λ _. Preserves-pure _

  watchdog_rounds-Preserves :
      (interval n : ℕ) → Preserves (IsUntouched c) (watchdog_rounds e c interval n)
  unfolding watchdog_rounds watchdog_round
  watchdog_rounds-Preserves interval zero = Preserves-pure tt
  watchdog_rounds-Preserves interval (suc n) =
      Preserves-bind _ _
        (Preserves-bind _ _ (sleep-Preserves e (untouched c) interval) λ _.
          Preserves-catch _ _ (ray_watchdog_tick-Preserves e c markable) λ _. Preserves-pure tt)
        λ _. watchdog_rounds-Preserves interval n

  -- Where all models of the catalog run on exec engines, and all profiles, the default one included, in containers whose first
  -- catalog model does too, a gateway that starts with no container listed and then runs its watchdog for any number of rounds
  -- creates, removes, pauses, unpauses and stops no container, whatever the outside does and whatever profile was
  -- persisted, and only containers of such models are ready or starting.
  pub lifespan-IsUntouched :
      (deepseek : Keyed) (persisted : Option String) (interval n : ℕ) (s : St e.State)
      → All (λ m. is_exec m.engine ≡ true) c.all_models
      → All (λ k. IsSafeProfile c k.1) c.registry
      → IsSafeProfile c deepseek.1
      → s.container_states ≡ []
      → s.calls ≡ []
      → IsUntouched c (lifespan e c deepseek persisted interval n s).1
  unfolding lifespan start
  lifespan-IsUntouched deepseek persisted interval n s q r d a b =
      (Preserves-bind _ _
          (Preserves-bind _ _ (detect_and_adopt-Preserves e c q r)
            λ o. unless_adopted-Preserves _ o q (startup_profile-Safe c deepseek persisted r d))
          λ _. watchdog_rounds-Preserves interval n).outcome
        s (record { quiet = rw b tt; live = rw a tt })
