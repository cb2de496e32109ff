-- ===== src/Orchestrator/Ownership.antt =====
-- The exec engines of gateway/orchestrator.py: their containers are not the Gateway's to start or stop.
pub mod Switch
use dmr.Prelude.{
  ℕ, zero, suc, String, str_eq, ◌≡◌, refl, Bool, true, false, ◌&&◌, ◌||◌, not, if◌then◌else◌, some,
  List, [], ◌∷◌, All, All-Elem, sym,
}
use mathlib.Core.Path.{subst}
use dmr.Config.{
  ModelDefinition, Engine, spark_cluster, ray_vllm, VramProfile, SwapStrategy, is_exec, is_spark,
  is_ray, all_models_of,
}
use dmr.Orchestrator.Exec.{
  St, ContainerState, ready, stopping, stopped, error, Error, timed_out, ok, Exec, pure, catch,
  gets, modify, ask, ◌>>=◌, ◌>>◌,
}
use dmr.Orchestrator.Exec.Preserves.{
  Preserves, Preserves-bind, Preserves-if, Preserves-pure, Preserves-gets, Preserves-for_each,
  Preserves-catch, preserve_rules,
}
use dmr.Orchestrator.Outside.{World}
use dmr.Orchestrator.Settings.{Settings, put_state, set_state, model_of_container}
use dmr.Orchestrator.Spark.{stop_exec_model}
use dmr.Orchestrator.Lifecycle.{
  is_live, contains, ray_ready, start_spark, start_ray, start_workload, stop_other,
  ensure_container_running, stop_outgoing, stop_named, stop_listed, teardown_current,
}
use dmr.Orchestrator.Swap.{
  probe, wait_round, wait_ready, wait_all_ready, vram_round, wait_vram, ensure_vram_available,
  promote_starting, on_timeout, bring_profile_up, claim, swap_body, switch_profile, is_active,
  finish,
}
use dmr.Orchestrator.Cluster.{
  is_lifecycle, IsFrame, get_workload-Preserves, check_health-Preserves, query_gpus-Preserves,
  sleep-Preserves, persist-Preserves, verify_ray_cluster_ready-Preserves, start_ray_vllm-Preserves,
  start_spark_serve-Preserves, verify_spark_cluster_ready-Preserves, stop_exec_model-Preserves,
}

-- The first model of the catalog in this container runs on an exec engine.
unfoldable pub IsExternal : Settings → String → Type 0
IsExternal c n =
    (m : ModelDefinition) × ((model_of_container n c.all_models ≡ some m)
      × (is_exec m.engine ≡ true))

-- No lifecycle call was made, and what is ready or starting is external.
pub record IsUntouched {W : Type 0} (c : Settings) (s : St W) : Type 0 where
  pub quiet : All (λ k. is_lifecycle k ≡ false) s.calls
  pub live : All (λ kv. is_live kv.1 ≡ true → IsExternal c kv.0) s.container_states

put_state-All :
    (c : Settings) (n : String) (v : ContainerState) (kvs : List (String × ContainerState))
    → (is_live v ≡ true → IsExternal c n)
    → All (λ kv. is_live kv.1 ≡ true → IsExternal c kv.0) kvs
    → All (λ kv. is_live kv.1 ≡ true → IsExternal c kv.0) (put_state n v kvs)
unfolding put_state
put_state-All c n v [] h a = (h, tt)
put_state-All c n v ((k, w) ∷ kvs) h (a, as1) =
    elim (str_eq k n)
      as (λ b.
        All (λ kv. is_live kv.1 ≡ true → IsExternal c kv.0)
          (if b then (n, v) ∷ kvs else (k, w) ∷ put_state n v kvs)) [
            | true ↦ (h, as1)
            | false ↦ (a, put_state-All c n v kvs h as1)
          ]

module _ {W : Type 0} (c : Settings) where
  pub untouched : IsFrame {W = W} (IsUntouched c)
  unfolding ask
  untouched = record {
    asks = λ k f q. record { outcome = λ s h. record { quiet = (q, h.quiet); live = h.live } };
  }

  pub set_state-Preserves :
      (n : String) (v : ContainerState)
      → (is_live v ≡ true → IsExternal c n)
      → Preserves {W = W} (IsUntouched c) (set_state n v)
  unfolding set_state modify
  set_state-Preserves n v x = record {
    outcome =
        λ s h. record { quiet = h.quiet; live = put_state-All c n v s.container_states x h.live };
  }

pub not_other : (g : Engine) → is_exec g ≡ true → is_spark g ≡ false → is_ray g ≡ false → ⊥
unfolding is_exec is_spark is_ray
not_other spark_cluster x y z = cc
not_other ray_vllm x y z = cc
not_other _ x y z = cc

live_only :
    (n : String) (c : Settings) (v : ContainerState)
    → is_live v ≡ false
    → is_live v ≡ true
    → IsExternal c n
unfolding is_live
live_only n c v f t = absurd cc

-- A loop over what is in the state may use what holds of the state.
Preserves-gets_bind :
    {W A B : Type 0} {P : St W → Type 0} (g : St W → A) (f : A → Exec W B)
    → ((s : St W) → P s → Preserves P (f (g s)))
    → Preserves P (gets g >>= f)
unfolding gets ◌>>=◌
Preserves-gets_bind g f k = record { outcome = λ s h. (k s h).outcome s h }

or-false : (a b : Bool) → a || not b ≡ false → b ≡ true
or-false false true h = refl
or-false _ _ h = cc

module _ (e : World) (c : Settings) where
  set_error-Preserves : (n : String) → Preserves {W = e.State} (IsUntouched c) (set_state n error)
  unfolding is_live
  set_error-Preserves n = set_state-Preserves c n error (live_only n c error refl)

  set_stopped-Preserves :
      (n : String) → Preserves {W = e.State} (IsUntouched c) (set_state n stopped)
  unfolding is_live
  set_stopped-Preserves n = set_state-Preserves c n stopped (live_only n c stopped refl)

  set_stopping-Preserves :
      (n : String) → Preserves {W = e.State} (IsUntouched c) (set_state n stopping)
  unfolding is_live
  set_stopping-Preserves n = set_state-Preserves c n stopping (live_only n c stopping refl)

  pub set_ready-Preserves :
      (n : String) → IsExternal c n → Preserves {W = e.State} (IsUntouched c) (set_state n ready)
  set_ready-Preserves n x = set_state-Preserves c n ready (λ _. x)

  ray_ready-Preserves : (m : ModelDefinition) → Preserves (IsUntouched c) (ray_ready e c m)
  unfolding ray_ready
  ray_ready-Preserves m =
      search
        (preserve_rules, verify_ray_cluster_ready-Preserves e (untouched c), set_error-Preserves)
        depth 9

  start_spark-Preserves :
      (m : ModelDefinition)
      → IsExternal c m.container_name
      → Preserves (IsUntouched c) (start_spark e c m)
  unfolding start_spark
  start_spark-Preserves m x =
      Preserves-bind _ _ (verify_spark_cluster_ready-Preserves e c (untouched c) m) λ _.
        Preserves-bind _ _ (start_spark_serve-Preserves e c (untouched c) m)
          λ _. set_state-Preserves c _ _ (λ _. x)

  start_ray-Preserves :
      (m : ModelDefinition)
      → IsExternal c m.container_name
      → Preserves (IsUntouched c) (start_ray e c m)
  unfolding start_ray
  start_ray-Preserves m x = Preserves-bind _ _ (ray_ready-Preserves m) λ _.
      Preserves-bind _ _ (start_ray_vllm-Preserves e (untouched c) m)
        λ _. set_state-Preserves c _ _ (λ _. x)

  pub ensure_container_running-Preserves :
      (g : SwapStrategy) (m : ModelDefinition)
      → is_exec m.engine ≡ true
      → IsExternal c m.container_name
      → Preserves (IsUntouched c) (ensure_container_running e c g m)
  unfolding ensure_container_running
  ensure_container_running-Preserves g m q x =
      Preserves-bind _ _ (set_state-Preserves c _ _ (λ _. x)) λ _.
        Preserves-if (is_spark m.engine) (start_spark e c m)
          (if is_ray m.engine then start_ray e c m else start_workload e c m g)
          (λ _. start_spark-Preserves m x)
          (λ s.
            Preserves-if (is_ray m.engine) (start_ray e c m) (start_workload e c m g)
              (λ _. start_ray-Preserves m x) (λ r. absurd (not_other m.engine q s r)))

  stop_outgoing-Preserves :
      (ns : List String) (m : ModelDefinition) → Preserves (IsUntouched c) (stop_outgoing e c ns m)
  unfolding stop_outgoing
  stop_outgoing-Preserves ns m =
      search (preserve_rules, stop_exec_model-Preserves e c (untouched c), set_stopped-Preserves)

  stop_named-Preserves :
      (g : SwapStrategy) (n : String) (m : ModelDefinition)
      → is_exec m.engine ≡ true
      → Preserves (IsUntouched c) (stop_named e c g n (some m))
  unfolding stop_named
  stop_named-Preserves g n m q =
      Preserves-if _ (stop_exec_model e c m >> set_state n stopped) (stop_other e c g n)
        (λ _.
          Preserves-bind _ _ (stop_exec_model-Preserves e c (untouched c) m)
            λ _. set_stopped-Preserves n)
        (λ f. absurd cc)

  stop_live-Preserves :
      (g : SwapStrategy) (n : String)
      → IsExternal c n
      → Preserves (IsUntouched c) (stop_named e c g n (model_of_container n c.all_models))
  unfolding IsExternal
  stop_live-Preserves g n (m, (h, q)) =
      subst (λ o. Preserves (IsUntouched c) (stop_named e c g n o)) (sym h)
        (stop_named-Preserves g n m q)

  stop_listed-Preserves :
      (g : SwapStrategy) (ns : List String) (n : String) (v : ContainerState)
      → (is_live v ≡ true → IsExternal c n)
      → Preserves (IsUntouched c) (stop_listed e c g ns (n, v))
  unfolding stop_listed
  stop_listed-Preserves g ns n v x =
      Preserves-if (contains n ns || not (is_live v)) (pure tt)
        (set_state n stopping >> stop_named e c g n (model_of_container n c.all_models))
        (λ _. Preserves-pure tt)
        (λ f.
          Preserves-bind _ _ (set_stopping-Preserves n)
            λ _. stop_live-Preserves g n (x (or-false (contains n ns) (is_live v) f)))

  pub teardown_current-Preserves :
      (g : SwapStrategy) (ns ms : List String)
      → Preserves (IsUntouched c) (teardown_current e c g ns ms)
  unfolding teardown_current
  teardown_current-Preserves g ns ms = Preserves-bind _ _ (Preserves-gets _) λ active.
      Preserves-bind _ _ (Preserves-for_each _ _ (λ m _. stop_outgoing-Preserves ms m)) λ _.
        Preserves-gets_bind _ _ λ s h.
          Preserves-for_each _ _ (λ kv i.
            stop_listed-Preserves g ns kv.0 kv.1 (All-Elem _ kv s.container_states h.live i))
