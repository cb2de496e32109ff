-- ===== src/Orchestrator/Ownership/Switch.antt =====
-- A whole switch of gateway/orchestrator.py leaves external containers alone.
use dmr.Prelude.{
  ℕ, zero, suc, String, ◌≡◌, Bool, true, false, ◌&&◌, not, if◌then◌else◌, List, All, All-Elem,
}
use dmr.Config.{ModelDefinition, VramProfile, is_exec, all_models_of}
use dmr.Orchestrator.Exec.{St, Error, timed_out, ok, Exec, pure, catch, modify}
use dmr.Orchestrator.Exec.Preserves.{
  Preserves, Preserves-bind, Preserves-pure, Preserves-gets, Preserves-for_each, Preserves-catch,
  preserve_rules,
}
use dmr.Orchestrator.Outside.{World}
use dmr.Orchestrator.Settings.{Settings}
use dmr.Orchestrator.Swap.{
  probe, wait_round, wait_ready, wait_all_ready, vram_round, wait_vram, ensure_vram_available,
  promote_starting, on_timeout, bring_profile_up, claim, swap_body, switch_profile, is_active,
  finish,
}
use dmr.Orchestrator.Cluster.{
  get_workload-Preserves, check_health-Preserves, query_gpus-Preserves, sleep-Preserves,
  persist-Preserves,
}
use dmr.Orchestrator.Ownership.{
  IsExternal, IsUntouched, untouched, set_ready-Preserves, ensure_container_running-Preserves,
  teardown_current-Preserves,
}

module _ (e : World) (c : Settings) where
  probe-Preserves : (m : ModelDefinition) → Preserves (IsUntouched c) (probe e c m)
  unfolding probe
  probe-Preserves m =
      search
        (
          preserve_rules,
          check_health-Preserves e (untouched c),
          get_workload-Preserves e (untouched c),
        )
        depth 9

  wait_round-Preserves :
      (again : Exec e.State (Unit {0})) (t : ℕ) (m : ModelDefinition)
      → Preserves (IsUntouched c) again
      → IsExternal c m.container_name
      → Preserves (IsUntouched c) (wait_round e c again t m)
  unfolding wait_round
  wait_round-Preserves again t m k x =
      search
        (preserve_rules, probe-Preserves, set_ready-Preserves e c, sleep-Preserves e (untouched c))
        depth 12

  wait_ready-Preserves :
      (n t : ℕ) (m : ModelDefinition)
      → IsExternal c m.container_name
      → Preserves (IsUntouched c) (wait_ready e c n t m)
  unfolding wait_ready
  wait_ready-Preserves zero t m x = search preserve_rules
  wait_ready-Preserves (suc n) t m x = wait_round-Preserves _ t m (wait_ready-Preserves n t m x) x

  vram_round-Preserves :
      (again : Exec e.State (Unit {0})) (k : ℕ)
      → Preserves (IsUntouched c) again
      → Preserves (IsUntouched c) (vram_round e c again k)
  unfolding vram_round
  vram_round-Preserves again k h =
      Preserves-bind _ _ (sleep-Preserves e (untouched c) 1)
        λ _. Preserves-bind _ _ (query_gpus-Preserves e (untouched c)) λ free. search preserve_rules

  wait_vram-Preserves : (n k : ℕ) → Preserves (IsUntouched c) (wait_vram e c n k)
  unfolding wait_vram
  wait_vram-Preserves zero k = search preserve_rules
  wait_vram-Preserves (suc n) k = vram_round-Preserves _ k (wait_vram-Preserves n k)

  ensure_vram_available-Preserves :
      (k : ℕ) (ns ms : List String) → Preserves (IsUntouched c) (ensure_vram_available e c k ns ms)
  unfolding ensure_vram_available
  ensure_vram_available-Preserves k ns ms =
      Preserves-bind _ _ (query_gpus-Preserves e (untouched c))
        λ free. search (preserve_rules, teardown_current-Preserves e c, wait_vram-Preserves)

  wait_all_ready-Preserves :
      (ms : List ModelDefinition)
      → All (λ m. IsExternal c m.container_name) ms
      → Preserves (IsUntouched c) (wait_all_ready e c ms)
  unfolding wait_all_ready
  wait_all_ready-Preserves ms x = Preserves-bind _ _ (Preserves-gets _) λ t.
      Preserves-for_each _ _
        λ m i. wait_ready-Preserves _ t m (All-Elem (λ m. IsExternal c m.container_name) m ms x i)

  promote_starting-Preserves :
      (m : ModelDefinition)
      → IsExternal c m.container_name
      → Preserves (IsUntouched c) (promote_starting e c m)
  unfolding promote_starting
  promote_starting-Preserves m x = search (preserve_rules, set_ready-Preserves e c)

  on_timeout-Preserves :
      (ms : List ModelDefinition) (x : Error)
      → All (λ m. IsExternal c m.container_name) ms
      → Preserves (IsUntouched c) (on_timeout e c ms x)
  unfolding on_timeout
  on_timeout-Preserves ms timed_out x =
      Preserves-for_each _ _
        λ m i. promote_starting-Preserves m (All-Elem (λ m. IsExternal c m.container_name) m ms x i)
  on_timeout-Preserves ms _ x = search preserve_rules

  bring_profile_up-Preserves :
      (p : VramProfile)
      → All (λ m. is_exec m.engine ≡ true) (all_models_of p)
      → All (λ m. IsExternal c m.container_name) (all_models_of p)
      → Preserves (IsUntouched c) (bring_profile_up e c p)
  unfolding bring_profile_up
  bring_profile_up-Preserves p q x = Preserves-bind _ _ (teardown_current-Preserves e c _ _ _) λ _.
      Preserves-bind _ _ (search (preserve_rules, ensure_vram_available-Preserves)) λ _.
        Preserves-bind _ _
          (Preserves-for_each _ _ λ m i.
            ensure_container_running-Preserves e c _ m
              (All-Elem (λ m. is_exec m.engine ≡ true) m _ q i)
              (All-Elem (λ m. IsExternal c m.container_name) m _ x i))
          λ _.
            Preserves-catch _ _ (wait_all_ready-Preserves _ x) λ err. on_timeout-Preserves _ err x

  swap-Preserves :
      (key : String) (p : VramProfile)
      → All (λ m. is_exec m.engine ≡ true) (all_models_of p)
      → All (λ m. IsExternal c m.container_name) (all_models_of p)
      → Preserves (IsUntouched c) (catch (swap_body e c key p) (λ _. pure false))
  unfolding swap_body claim modify
  swap-Preserves key p q x =
      Preserves-catch _ _
        (Preserves-bind _ _ (bring_profile_up-Preserves p q x) λ _.
          Preserves-bind _ _ (record { outcome = λ s h. record { quiet = h.quiet; live = h.live } })
            λ _.
              Preserves-bind _ _ (persist-Preserves e (untouched c) key) λ _. Preserves-pure true)
        λ _. Preserves-pure false

  -- Where every model of the new profile runs on an exec engine, in a container whose first catalog model does too,
  -- and no other container is starting or ready, a call of switch_profile creates, removes, pauses, unpauses
  -- and stops no container, whatever the outside does, and it leaves the
  -- orchestrator in such a state again.
  pub switch_profile-IsUntouched :
      (key : String) (p : VramProfile) (force : Bool)
      → All (λ m. is_exec m.engine ≡ true) (all_models_of p)
      → All (λ m. IsExternal c m.container_name) (all_models_of p)
      → (s : St e.State) → IsUntouched c s
      → IsUntouched c (switch_profile e c key p force s).1
  unfolding switch_profile finish
  switch_profile-IsUntouched key p force q x s h =
      elim (is_active e c key s.active_profile && not force)
        as (λ b.
          IsUntouched c
            (if b
              then (ok true, s)
              else finish e c (
                  catch (swap_body e c key p) (λ _. pure false)
                    (record s { swap_in_progress = true }))).1) [
                      | true ↦ h
                      | false ↦
                          let s0 = record s { swap_in_progress = true } in
                          let k =
                            (swap-Preserves key p q x).outcome s0
                              (record { quiet = h.quiet; live = h.live }) in
                          record { quiet = k.quiet; live = k.live }
                    ]
