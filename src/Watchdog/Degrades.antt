-- ===== src/Watchdog/Degrades.antt =====
-- The watchdog only takes models out of service.
use dmr.Prelude.{
  ◌≡◌, refl, sym, ◌⊎◌, inl, inr, String, Bool, true, false, Option, some, List, str_eq,
  if◌then◌else◌,
}
use mathlib.Core.Path.{subst}
use dmr.Orchestrator.Exec.{ContainerState, error, St, modify, ask}
use dmr.Orchestrator.Exec.Preserves.{Preserves}
use dmr.Orchestrator.Outside.{World}
use dmr.Orchestrator.Cluster.{IsFrame}
use dmr.Orchestrator.Settings.{Settings, state_of, put_state, set_state}
use dmr.Orchestrator.Readiness.{state_of-put_state}
use dmr.Watchdog.{ray_watchdog_tick}
use dmr.Watchdog.Passes.{IsMarkable, ray_watchdog_tick-Preserves}

-- A predicate on the states of the containers that marking one as ERROR keeps.
pub record IsStable (K : List (String × ContainerState) → Type 0) : Type 0 where
  pub marks :
      (n : String) (kvs : List (String × ContainerState)) → K kvs → K (put_state n error kvs)

-- A state whose containers are as `K` says, with the active profile `a`.
abbrev pub On :
    {W : Type 0} → (List (String × ContainerState) → Type 0) → Option String → St W → Type 0
On K a s = K s.container_states × (s.active_profile ≡ a)

module _ (e : World) (c : Settings) {K : List (String × ContainerState) → Type 0} (k : IsStable K)
    (a : Option String) where
  pub frame : IsFrame {W = e.State} (On K a)
  unfolding ask
  frame = record { asks = λ call f q. record { outcome = λ s p. p } }

  set_error-Preserves : (n : String) → Preserves {W = e.State} (On K a) (set_state n error)
  unfolding set_state modify
  set_error-Preserves n = record { outcome = λ s p. (k.marks n s.container_states p.0, p.1) }

  pub On-IsMarkable : IsMarkable {W = e.State} (On K a)
  On-IsMarkable = record { frame = frame; marks = set_error-Preserves }

-- Kept or marked.
abbrev pub KeptOrError : String → Option ContainerState → List (String × ContainerState) → Type 0
KeptOrError n o kvs = (state_of n kvs ≡ o) ⊎ (state_of n kvs ≡ some error)

KeptOrError-IsStable : (n : String) (o : Option ContainerState) → IsStable (KeptOrError n o)
KeptOrError-IsStable n o = record {
  marks = λ j kvs h.
      subst (λ x. (x ≡ o) ⊎ (x ≡ some error)) (sym (state_of-put_state j n error kvs))
        (pick (str_eq j n) kvs h);
}
  where
    pick :
        (b : Bool) (kvs : List (String × ContainerState))
        → KeptOrError n o kvs
        → (let x = if b then some error else state_of n kvs in (x ≡ o) ⊎ (x ≡ some error))
    pick true kvs h = inr refl
    pick false kvs h = h

-- A watchdog pass leaves the state of each container as it was or marks it ERROR, and leaves the active profile, also when it raises.
pub ray_watchdog_tick-KeptOrError :
    (e : World) (c : Settings) (s : St e.State) (n : String)
    → let after = (ray_watchdog_tick e c s).1 in
      KeptOrError n (state_of n s.container_states) after.container_states
      × (after.active_profile ≡ s.active_profile)
ray_watchdog_tick-KeptOrError e c s n =
    (ray_watchdog_tick-Preserves e c (
        On-IsMarkable e c (KeptOrError-IsStable n (state_of n s.container_states))
          s.active_profile)).outcome
      s (inl refl, refl)
