-- ===== src/Orchestrator/Outcome.antt =====
-- What a call of switch_profile in gateway/orchestrator.py leaves behind, whatever the outside does.
use dmr.Prelude.{
  ℕ, zero, suc, String, ◌≡◌, refl, ◌⊎◌, inl, inr, Bool, true, false, ◌&&◌, not, if◌then◌else◌,
  Option, none, some, List,
}
use dmr.Config.{ModelDefinition, VramProfile, SwapStrategy}
use dmr.Orchestrator.Exec.{
  St, ContainerState, Call, Error, timed_out, Result, ok, err, Exec, pure, catch, handle, continue,
  modify, ask, ◌>>=◌,
}
use dmr.Orchestrator.Exec.Preserves.{Preserves, preserve_rules}
use dmr.Orchestrator.Outside.{World, Workload}
use dmr.Orchestrator.Outside
use dmr.Orchestrator.Settings.{Settings, set_state}
use dmr.Orchestrator.Lifecycle.{
  create_and_start, recreate, bring_up, ray_ready, start_spark, start_ray, start_workload,
  ensure_container_running, stop_outgoing, stop_other, stop_named, stop_listed, teardown_current,
}
use dmr.Orchestrator.Swap.{
  probe, wait_round, wait_ready, vram_round, wait_all_ready, wait_vram, ensure_vram_available,
  promote_starting, on_timeout, bring_profile_up, claim, swap_body, switch_profile, finish,
  is_active,
}
use dmr.Orchestrator.Cluster.{
  IsFrame, get_workload-Preserves, check_health-Preserves, query_gpus-Preserves, sleep-Preserves,
  verify_ray_cluster_ready-Preserves, start_ray_vllm-Preserves, start_spark_serve-Preserves,
  verify_spark_cluster_ready-Preserves, stop_exec_model-Preserves,
}

-- The profile that is active and whether a swap is in progress.
record IsHeld {W : Type 0} (active : Option String) (busy : Bool) (s : St W) : Type 0 where
  active_is : s.active_profile ≡ active
  busy_is : s.swap_in_progress ≡ busy

module _ {W : Type 0} {a : Option String} {b : Bool} where
  ask-Preserves : {A : Type 0} (k : Call) (f : W → Result A × W) → Preserves (IsHeld a b) (ask k f)
  unfolding ask
  ask-Preserves k f = record {
    outcome = λ s h. record { active_is = h.active_is; busy_is = h.busy_is };
  }

  held : IsFrame {W = W} (IsHeld a b)
  held = record { asks = λ k f _. ask-Preserves k f }

  set_state-Preserves :
      (n : String) (v : ContainerState) → Preserves {W = W} (IsHeld a b) (set_state n v)
  unfolding set_state modify
  set_state-Preserves n v = record {
    outcome = λ s h. record { active_is = h.active_is; busy_is = h.busy_is };
  }

module _ (e : World) (c : Settings) {a : Option String} {b : Bool} where
  create_and_start-Preserves :
      (m : ModelDefinition) → Preserves (IsHeld a b) (create_and_start e c m)
  unfolding create_and_start Outside.create_workload
  create_and_start-Preserves m = search (preserve_rules, ask-Preserves, set_state-Preserves)

  recreate-Preserves : (m : ModelDefinition) → Preserves (IsHeld a b) (recreate e c m)
  unfolding recreate Outside.remove_workload
  recreate-Preserves m = search (preserve_rules, ask-Preserves, create_and_start-Preserves)

  bring_up-Preserves :
      (m : ModelDefinition) (g : SwapStrategy) (w : Option Workload)
      → Preserves (IsHeld a b) (bring_up e c m g w)
  unfolding bring_up Outside.unpause_workload Outside.ensure_network
  bring_up-Preserves m g none = create_and_start-Preserves m
  bring_up-Preserves m g (some w) = search (preserve_rules, ask-Preserves, recreate-Preserves)

  ray_ready-Preserves : (m : ModelDefinition) → Preserves (IsHeld a b) (ray_ready e c m)
  unfolding ray_ready
  ray_ready-Preserves m =
      search (preserve_rules, verify_ray_cluster_ready-Preserves e held, set_state-Preserves) depth
        9

  start_spark-Preserves : (m : ModelDefinition) → Preserves (IsHeld a b) (start_spark e c m)
  unfolding start_spark
  start_spark-Preserves m = search (
    preserve_rules,
    verify_spark_cluster_ready-Preserves e c held,
    start_spark_serve-Preserves e c held,
    set_state-Preserves,
  )

  start_ray-Preserves : (m : ModelDefinition) → Preserves (IsHeld a b) (start_ray e c m)
  unfolding start_ray
  start_ray-Preserves m =
      search
        (preserve_rules, ray_ready-Preserves, start_ray_vllm-Preserves e held, set_state-Preserves)

  start_workload-Preserves :
      (m : ModelDefinition) (g : SwapStrategy) → Preserves (IsHeld a b) (start_workload e c m g)
  unfolding start_workload
  start_workload-Preserves m g =
      search
        (preserve_rules, get_workload-Preserves e held, bring_up-Preserves, set_state-Preserves)

  ensure_container_running-Preserves :
      (g : SwapStrategy) (m : ModelDefinition)
      → Preserves (IsHeld a b) (ensure_container_running e c g m)
  unfolding ensure_container_running
  ensure_container_running-Preserves g m =
      search
        (
          preserve_rules, set_state-Preserves, start_spark-Preserves, start_ray-Preserves,
          start_workload-Preserves,
        )
        depth 9

  stop_outgoing-Preserves :
      (ns : List String) (m : ModelDefinition) → Preserves (IsHeld a b) (stop_outgoing e c ns m)
  unfolding stop_outgoing
  stop_outgoing-Preserves ns m =
      search (preserve_rules, stop_exec_model-Preserves e c held, set_state-Preserves)

  stop_other-Preserves :
      (g : SwapStrategy) (n : String) → Preserves (IsHeld a b) (stop_other e c g n)
  unfolding stop_other Outside.pause_workload Outside.stop_workload
  stop_other-Preserves g n = search (preserve_rules, ask-Preserves, set_state-Preserves) depth 9

  stop_named-Preserves :
      (g : SwapStrategy) (n : String) (m : Option ModelDefinition)
      → Preserves (IsHeld a b) (stop_named e c g n m)
  unfolding stop_named
  stop_named-Preserves g n none = stop_other-Preserves g n
  stop_named-Preserves g n (some m) = search (
    preserve_rules,
    stop_exec_model-Preserves e c held,
    set_state-Preserves,
    stop_other-Preserves,
  )

  stop_listed-Preserves :
      (g : SwapStrategy) (ns : List String) (kv : String × ContainerState)
      → Preserves (IsHeld a b) (stop_listed e c g ns kv)
  unfolding stop_listed
  stop_listed-Preserves g ns (n, v) =
      search (preserve_rules, stop_named-Preserves, set_state-Preserves)

  teardown_current-Preserves :
      (g : SwapStrategy) (ns ms : List String)
      → Preserves (IsHeld a b) (teardown_current e c g ns ms)
  unfolding teardown_current
  teardown_current-Preserves g ns ms =
      search (preserve_rules, stop_outgoing-Preserves, stop_listed-Preserves) depth 9

  probe-Preserves : (m : ModelDefinition) → Preserves (IsHeld a b) (probe e c m)
  unfolding probe
  probe-Preserves m =
      search (preserve_rules, check_health-Preserves e held, get_workload-Preserves e held) depth 9

  wait_round-Preserves :
      (again : Exec e.State (Unit {0})) (t : ℕ) (m : ModelDefinition)
      → Preserves (IsHeld a b) again
      → Preserves (IsHeld a b) (wait_round e c again t m)
  unfolding wait_round
  wait_round-Preserves again t m k =
      search (preserve_rules, probe-Preserves, set_state-Preserves, sleep-Preserves e held) depth 12

  wait_ready-Preserves :
      (n t : ℕ) (m : ModelDefinition) → Preserves (IsHeld a b) (wait_ready e c n t m)
  unfolding wait_ready
  wait_ready-Preserves zero t m = search preserve_rules
  wait_ready-Preserves (suc n) t m = wait_round-Preserves _ t m (wait_ready-Preserves n t m)

  wait_all_ready-Preserves :
      (ms : List ModelDefinition) → Preserves (IsHeld a b) (wait_all_ready e c ms)
  unfolding wait_all_ready
  wait_all_ready-Preserves ms = search (preserve_rules, wait_ready-Preserves)

  vram_round-Preserves :
      (again : Exec e.State (Unit {0})) (k : ℕ)
      → Preserves (IsHeld a b) again
      → Preserves (IsHeld a b) (vram_round e c again k)
  unfolding vram_round
  vram_round-Preserves again k h =
      search (preserve_rules, sleep-Preserves e held, query_gpus-Preserves e held) depth 9

  wait_vram-Preserves : (n k : ℕ) → Preserves (IsHeld a b) (wait_vram e c n k)
  unfolding wait_vram
  wait_vram-Preserves zero k = search preserve_rules
  wait_vram-Preserves (suc n) k = vram_round-Preserves _ k (wait_vram-Preserves n k)

  ensure_vram_available-Preserves :
      (k : ℕ) (ns ms : List String) → Preserves (IsHeld a b) (ensure_vram_available e c k ns ms)
  unfolding ensure_vram_available
  ensure_vram_available-Preserves k ns ms =
      search
        (
          preserve_rules,
          query_gpus-Preserves e held,
          teardown_current-Preserves,
          wait_vram-Preserves,
        )
        depth 9

  promote_starting-Preserves :
      (m : ModelDefinition) → Preserves (IsHeld a b) (promote_starting e c m)
  unfolding promote_starting
  promote_starting-Preserves m = search (preserve_rules, set_state-Preserves)

  on_timeout-Preserves :
      (ms : List ModelDefinition) (x : Error) → Preserves (IsHeld a b) (on_timeout e c ms x)
  unfolding on_timeout
  on_timeout-Preserves ms timed_out = search (preserve_rules, promote_starting-Preserves)
  on_timeout-Preserves ms _ = search preserve_rules

  -- Everything before the profile is claimed.
  bring_profile_up-Preserves : (p : VramProfile) → Preserves (IsHeld a b) (bring_profile_up e c p)
  unfolding bring_profile_up
  bring_profile_up-Preserves p =
      search
        (
          preserve_rules, teardown_current-Preserves, ensure_vram_available-Preserves,
          ensure_container_running-Preserves, wait_all_ready-Preserves, on_timeout-Preserves,
        )
        depth 12

-- What the caller of switch_profile finds, from the state `s` before, where the switch is skipped or not.
unfoldable pub Settled : {W : Type 0} → String → St W → Bool → Result Bool × St W → Type 0
Settled key s true out = (out.0 ≡ ok true) × (out.1 ≡ s)
Settled key s false out =
    (out.1.swap_in_progress ≡ false)
    × (((out.0 ≡ ok true) × (out.1.active_profile ≡ some key))
        ⊎ ((out.0 ≡ ok false) × (out.1.active_profile ≡ s.active_profile)))

module _ (e : World) (c : Settings) (key : String) where
  settle :
      (s s1 : St e.State) (r : Result (Unit {0}))
      → IsHeld s.active_profile true s1
      → Settled key s false
          (finish e c (handle (λ _. pure false) (continue (λ _. claim e c key) (r, s1))))
  unfolding Settled finish claim pure modify ◌>>=◌ Outside.persist ask
  settle s s1 (ok x) h = (refl, inl (refl, refl))
  settle s s1 (err x) h = (refl, inr (refl, h.active_is))

  swap-Settled :
      (p : VramProfile) (s : St e.State)
      → Settled key s false (
          finish e c
            (catch (swap_body e c key p) (λ _. pure false) (record s { swap_in_progress = true })))
  unfolding catch swap_body ◌>>=◌
  swap-Settled p s =
      let s0 = record s { swap_in_progress = true } in
      settle s (bring_profile_up e c p s0).1 (bring_profile_up e c p s0).0 (
        (bring_profile_up-Preserves e c p).outcome s0 (record { active_is = refl; busy_is = refl }))

  branch-Settled :
      (s : St e.State) (skip : Bool) (x : Result Bool × St e.State)
      → Settled key s false x
      → Settled key s skip (if skip then (ok true, s) else x)
  unfolding Settled
  branch-Settled s true x h = (refl, refl)
  branch-Settled s false x h = h

  -- Whatever the outside does, switch_profile answers true or false and never raises. A switch to the
  -- active profile without force answers true and changes nothing at all; any other one ends
  -- with no swap in progress, and with the new profile active if the answer is true, with the old one
  -- if it is false.
  pub switch_profile-Settled :
      (p : VramProfile) (force : Bool) (s : St e.State)
      → Settled key s
          (is_active e c key s.active_profile && not force)
          (switch_profile e c key p force s)
  unfolding switch_profile
  switch_profile-Settled p force s = branch-Settled s _ _ (swap-Settled p s)
