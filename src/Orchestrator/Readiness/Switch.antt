-- ===== src/Orchestrator/Readiness/Switch.antt =====
-- A switch of gateway/orchestrator.py that succeeds has every model of the profile marked ready.
use dmr.Prelude.{
  ℕ, zero, suc, String, ◌≡◌, refl, inl, inr, Bool, true, false, ◌&&◌, not, if◌then◌else◌, Option,
  none, some, List, [], ◌∷◌, All, Elem, All-Elem, ap, ltb, ◌-◌, leb,
}
use dmr.Config.{ModelDefinition, VramProfile, SwapStrategy, all_models_of}
use dmr.Orchestrator.Exec.{
  St, Call, ContainerState, starting, ready, error, Error, timed_out, no_ray_workers, Result, ok,
  err, Exec, pure, raise, gets, handle, catch, modify, ask, ◌>>=◌, ◌>>◌,
}
use dmr.Orchestrator.Exec.Preserves.{
  Preserves, Preserves-bind, Preserves-pure, Preserves-gets, preserve_rules,
}
use dmr.Orchestrator.Outside.{World, Workload}
use dmr.Orchestrator.Outside
use dmr.Orchestrator.Settings.{Settings, set_state, state_of}
use dmr.Orchestrator.Ray.{verify_ray_cluster_ready}
use dmr.Orchestrator.Lifecycle.{
  create_and_start, recreate, bring_up, ray_ready, start_spark, start_ray, start_workload,
  ensure_container_running,
}
use dmr.Orchestrator.Swap.{
  probe, wait_round, wait_ready, wait_all_ready, promote_starting, on_timeout, bring_profile_up,
  claim, swap_body, switch_profile, is_active, finish, is_starting,
}
use dmr.Orchestrator.Cluster.{
  get_workload-Preserves, check_health-Preserves, sleep-Preserves, persist-Preserves,
  verify_ray_cluster_ready-Preserves, start_ray_vllm-Preserves, start_spark_serve-Preserves,
  verify_spark_cluster_ready-Preserves,
}
use dmr.Orchestrator.Readiness.{
  IsUp, IsReady, AllIn, AllIn-frame, ask-AllIn, set_state-AllIn, set_state-Gives, Gives,
  Gives-raise, Gives-if, Gives-catch, Gives-preserved, Gives-bind, Gives-for_each,
}

-- What comes before a raise does not matter.
then_raise :
    {W A : Type 0} {P Q : St W → Type 0} (m : Exec W (Unit {0})) (x : Error)
    → Gives P Q (m >> raise {A = A} x)
then_raise m x =
    Gives-bind {Q = λ _. Unit} m _ (record { returns = λ _ _ _ _. tt }) (λ _. Gives-raise x)

module _ (e : World) (c : Settings) (done : List ModelDefinition) where
  create_and_start-Gives :
      (m : ModelDefinition) → Gives (AllIn IsUp done) (AllIn IsUp done) (create_and_start e c m)
  unfolding create_and_start Outside.create_workload
  create_and_start-Gives m =
      Gives-catch _ _ (ask-AllIn IsUp done _ _) (Gives-preserved _ (ask-AllIn IsUp done _ _))
        (λ x. then_raise _ x)

  recreate-Gives :
      (m : ModelDefinition) → Gives (AllIn IsUp done) (AllIn IsUp done) (recreate e c m)
  unfolding recreate Outside.remove_workload
  recreate-Gives m =
      Gives-bind _ _ (Gives-preserved _ (ask-AllIn IsUp done _ _)) (λ _. create_and_start-Gives m)

  asked-Gives :
      {A : Type 0} (k : Call) (f : e.State → Result A × e.State)
      → Gives (AllIn IsUp done) (AllIn IsUp done) (ask k f)
  asked-Gives k f = Gives-preserved _ (ask-AllIn IsUp done k f)

  bring_up-Gives :
      (m : ModelDefinition) (g : SwapStrategy) (w : Option Workload)
      → Gives (AllIn IsUp done) (AllIn IsUp done) (bring_up e c m g w)
  unfolding bring_up Outside.unpause_workload Outside.ensure_network
  bring_up-Gives m g none = create_and_start-Gives m
  bring_up-Gives m g (some w) = search (Gives-if, recreate-Gives, asked-Gives)

  ray_ready-Gives :
      (m : ModelDefinition) → Gives (AllIn IsUp done) (AllIn IsUp done) (ray_ready e c m)
  unfolding ray_ready
  ray_ready-Gives m =
      Gives-if (leb 2 m.tensor_parallel_size)
        (verify_ray_cluster_ready e 2 >>= λ up.
          if up then pure tt else (set_state m.container_name error >> raise no_ray_workers))
        (pure tt)
        (λ _.
          Gives-bind _ _
            (Gives-preserved _ (verify_ray_cluster_ready-Preserves e (AllIn-frame IsUp done) 2))
            (λ up.
              Gives-if up (pure tt) (set_state m.container_name error >> raise no_ray_workers)
                (λ _. Gives-preserved _ (Preserves-pure tt)) (λ _. then_raise _ _)))
        (λ _. Gives-preserved _ (Preserves-pure tt))

  set_starting-Gives :
      (m : ModelDefinition)
      → Gives {W = e.State}
          (AllIn IsUp done)
          (AllIn IsUp (m ∷ done))
          (set_state m.container_name starting)
  unfolding IsUp
  set_starting-Gives m = set_state-Gives IsUp done m starting (inl refl)

  start_spark-Gives :
      (m : ModelDefinition) → Gives (AllIn IsUp done) (AllIn IsUp (m ∷ done)) (start_spark e c m)
  unfolding start_spark
  start_spark-Gives m =
      Gives-bind _ _
        (Gives-preserved _ (verify_spark_cluster_ready-Preserves e c (AllIn-frame IsUp done) m))
        λ _.
          Gives-bind _ _
            (Gives-preserved _ (start_spark_serve-Preserves e c (AllIn-frame IsUp done) m))
            λ _. set_starting-Gives m

  start_ray-Gives :
      (m : ModelDefinition) → Gives (AllIn IsUp done) (AllIn IsUp (m ∷ done)) (start_ray e c m)
  unfolding start_ray
  start_ray-Gives m = Gives-bind _ _ (ray_ready-Gives m) λ _.
      Gives-bind _ _ (Gives-preserved _ (start_ray_vllm-Preserves e (AllIn-frame IsUp done) m))
        λ _. set_starting-Gives m

  start_workload-Gives :
      (m : ModelDefinition) (g : SwapStrategy)
      → Gives (AllIn IsUp done) (AllIn IsUp (m ∷ done)) (start_workload e c m g)
  unfolding start_workload
  start_workload-Gives m g =
      Gives-bind _ _
        (Gives-preserved _ (get_workload-Preserves e (AllIn-frame IsUp done) m.container_name))
        λ w. Gives-bind _ _ (bring_up-Gives m g w) λ _. set_starting-Gives m

  ensure_container_running-Gives :
      (g : SwapStrategy) (m : ModelDefinition)
      → Gives (AllIn IsUp done) (AllIn IsUp (m ∷ done)) (ensure_container_running e c g m)
  unfolding ensure_container_running IsUp
  ensure_container_running-Gives g m =
      Gives-bind _ _
        (Gives-preserved _ (set_state-AllIn IsUp done m.container_name starting (inl refl)))
        λ _. search (Gives-if, start_spark-Gives, start_ray-Gives, start_workload-Gives)

-- What a wait and a promotion do to models that are up, and to those that are ready already.
module _ (e : World) (c : Settings) (P : Option ContainerState → Type 0) (ok_ready : P (some ready))
    (ms : List ModelDefinition) where
  probe-AllIn : (m : ModelDefinition) → Preserves (AllIn P ms) (probe e c m)
  unfolding probe
  probe-AllIn m =
      search
        (
          preserve_rules,
          check_health-Preserves e (AllIn-frame P ms),
          get_workload-Preserves e (AllIn-frame P ms),
        )
        depth 9

  ready-AllIn : (n : String) → Preserves {W = e.State} (AllIn P ms) (set_state n ready)
  ready-AllIn n = set_state-AllIn P ms n ready ok_ready

  wait_round-AllIn :
      (again : Exec e.State (Unit {0})) (t : ℕ) (m : ModelDefinition)
      → Preserves (AllIn P ms) again
      → Preserves (AllIn P ms) (wait_round e c again t m)
  unfolding wait_round
  wait_round-AllIn again t m h =
      search (preserve_rules, probe-AllIn, ready-AllIn, sleep-Preserves e (AllIn-frame P ms)) depth
        12

  wait_ready-AllIn : (n t : ℕ) (m : ModelDefinition) → Preserves (AllIn P ms) (wait_ready e c n t m)
  unfolding wait_ready
  wait_ready-AllIn zero t m = search preserve_rules
  wait_ready-AllIn (suc n) t m = wait_round-AllIn _ t m (wait_ready-AllIn n t m)

  wait_all_ready-AllIn :
      (ns : List ModelDefinition) → Preserves (AllIn P ms) (wait_all_ready e c ns)
  unfolding wait_all_ready
  wait_all_ready-AllIn ns = search (preserve_rules, wait_ready-AllIn)

  promote_starting-AllIn : (m : ModelDefinition) → Preserves (AllIn P ms) (promote_starting e c m)
  unfolding promote_starting
  promote_starting-AllIn m = search (preserve_rules, ready-AllIn)

weaken :
    {W A : Type 0} {P Q P' Q' : St W → Type 0} (m : Exec W A)
    → ((s : St W) → P' s → P s)
    → ((s : St W) → Q s → Q' s)
    → Gives P Q m
    → Gives P' Q' m
weaken m p q g = record { returns = λ s a h e. q _ (g.returns s a (p s h) e) }

is_starting-IsReady : (o : Option ContainerState) → IsUp o → is_starting o ≡ false → IsReady o
unfolding IsUp IsReady is_starting
is_starting-IsReady o (inl h) e = cc (ap is_starting h, e)
is_starting-IsReady o (inr h) e = h

module _ (e : World) (c : Settings) where
  wait_round-Gives :
      (done : List ModelDefinition) (again : Exec e.State (Unit {0})) (t : ℕ) (m : ModelDefinition)
      → Gives (AllIn IsReady done) (AllIn IsReady (m ∷ done)) again
      → Gives (AllIn IsReady done) (AllIn IsReady (m ∷ done)) (wait_round e c again t m)
  unfolding wait_round IsReady
  wait_round-Gives done again t m h = Gives-bind _ _ (Gives-preserved _ (Preserves-gets _)) λ now.
      Gives-if (ltb c.swap_timeout (now - t)) (raise timed_out)
        (probe e c m >>= λ healthy.
          if healthy then set_state m.container_name ready else (Outside.sleep e 1 >> again))
        (λ _. Gives-raise _)
        (λ _. Gives-bind _ _ (Gives-preserved _ (probe-AllIn e c IsReady refl done m)) λ healthy.
          Gives-if healthy (set_state m.container_name ready) (Outside.sleep e 1 >> again)
            (λ _. set_state-Gives IsReady done m ready refl)
            (λ _.
              Gives-bind _ _ (Gives-preserved _ (sleep-Preserves e (AllIn-frame IsReady done) 1))
                λ _. h))

  wait_ready-Gives :
      (done : List ModelDefinition) (n t : ℕ) (m : ModelDefinition)
      → Gives (AllIn IsReady done) (AllIn IsReady (m ∷ done)) (wait_ready e c n t m)
  unfolding wait_ready
  wait_ready-Gives done zero t m = Gives-raise _
  wait_ready-Gives done (suc n) t m = wait_round-Gives done _ t m (wait_ready-Gives done n t m)

  wait_all_ready-Gives :
      (ms : List ModelDefinition) → Gives (AllIn IsUp ms) (AllIn IsReady ms) (wait_all_ready e c ms)
  unfolding wait_all_ready AllIn
  wait_all_ready-Gives ms = Gives-bind _ _ (Gives-preserved _ (Preserves-gets _)) λ t.
      weaken _ (λ s h. (tt, tt)) (λ s h. h.0)
        (Gives-for_each IsReady _ (λ _. Unit) ms []
          (λ m done i. weaken _ (λ s h. h.1) (λ s h. (tt, h)) (wait_ready-Gives done _ t m)))

  promote_starting-Gives :
      (all done : List ModelDefinition) (m : ModelDefinition)
      → Elem m all
      → Gives
          (λ s. AllIn IsUp all s × AllIn IsReady done s)
          (λ s. AllIn IsUp all s × AllIn IsReady (m ∷ done) s)
          (promote_starting e c m)
  unfolding promote_starting gets ◌>>=◌ AllIn IsReady IsUp pure
  promote_starting-Gives all done m i = record {
    returns = λ s a h q.
        go s a (is_starting (state_of m.container_name s.container_states))
          (is_starting-IsReady _
            (All-Elem (λ m. IsUp (state_of m.container_name s.container_states)) m all h.0 i))
          h q;
  }
    where
      go :
          (s : St e.State) (a : Unit {0}) (b : Bool)
          → (b ≡ false → IsReady (state_of m.container_name s.container_states))
          → AllIn IsUp all s × AllIn IsReady done s
          → ((if b then set_state m.container_name ready else pure tt) s).0 ≡ ok a
          → let s' =
              ((if b then set_state {W = e.State} m.container_name ready else pure tt) s).1 in
            AllIn IsUp all s' × AllIn IsReady (m ∷ done) s'
      go s a true r h q = (
        (set_state-AllIn IsUp all m.container_name ready (inr refl)).outcome s h.0,
        (set_state-Gives IsReady done m ready refl).returns s a h.1 q,
      )
      go s a false r h q = (h.0, (r refl, h.1))

  on_timeout-Gives :
      (ms : List ModelDefinition) (x : Error)
      → Gives (AllIn IsUp ms) (AllIn IsReady ms) (on_timeout e c ms x)
  unfolding on_timeout AllIn
  on_timeout-Gives ms timed_out =
      weaken _ (λ s h. (h, tt)) (λ s h. h.0)
        (Gives-for_each IsReady _ (AllIn IsUp ms) ms []
          (λ m done i. promote_starting-Gives ms done m i))
  on_timeout-Gives ms _ = Gives-raise _

  bring_profile_up-Gives :
      (p : VramProfile)
      → Gives (λ _. Unit) (AllIn IsReady (all_models_of p)) (bring_profile_up e c p)
  unfolding bring_profile_up AllIn IsUp
  bring_profile_up-Gives p =
      Gives-bind {Q = λ _. Unit} _ _ (record { returns = λ _ _ _ _. tt })
        λ _.
          Gives-bind {Q = λ _. Unit} _ _ (record { returns = λ _ _ _ _. tt })
            λ _.
              Gives-bind _ _
                (weaken _ (λ s h. (tt, tt)) (λ s h. h.0)
                  (Gives-for_each IsUp _ (λ _. Unit) (all_models_of p) []
                    (λ m done i.
                      weaken _ (λ s h. h.1) (λ s h. (tt, h))
                        (ensure_container_running-Gives e c done _ m))))
                λ _.
                  Gives-catch _ _ (wait_all_ready-AllIn e c IsUp (inr refl) _ _)
                    (wait_all_ready-Gives _) (on_timeout-Gives _)

  swap_body-Gives :
      (key : String) (p : VramProfile)
      → Gives (λ _. Unit) (AllIn IsReady (all_models_of p)) (swap_body e c key p)
  unfolding swap_body claim modify AllIn
  swap_body-Gives key p = Gives-bind _ _ (bring_profile_up-Gives p) λ _.
      Gives-bind _ _ (record { returns = λ s a h q. h })
        λ _. Gives-preserved _ (
          Preserves-bind _ _ (persist-Preserves e (AllIn-frame IsReady (all_models_of p)) key)
            λ _. Preserves-pure true)

  -- When switch_profile is not skipped and answers true, every model of the profile is marked
  -- ready.
  pub switch_profile-IsReady :
      (key : String) (p : VramProfile) (force : Bool) (s : St e.State)
      → (is_active e c key s.active_profile && not force) ≡ false
      → (switch_profile e c key p force s).0 ≡ ok true
      → All
          (λ m.
            state_of m.container_name (switch_profile e c key p force s).1.container_states
            ≡ some ready)
          (all_models_of p)
  unfolding switch_profile finish AllIn IsReady catch pure
  switch_profile-IsReady key p force s skip q =
      let s0 = record s { swap_in_progress = true } in
      rw (skip, switch_profile)
        (go (swap_body e c key p s0).0 (swap_body e c key p s0).1
          (λ a. (swap_body-Gives key p).returns s0 a tt) (rw skip at q))
    where
      go :
          (r : Result Bool) (s1 : St e.State)
          → ((a : Bool) → r ≡ ok a → AllIn IsReady (all_models_of p) s1)
          → (handle (λ _. pure false) (r, s1)).0 ≡ ok true
          → All
              (λ m.
                state_of m.container_name (handle (λ _. pure false) (r, s1)).1.container_states
                ≡ some ready)
              (all_models_of p)
      go (ok b) s1 h e = h b refl
      go (err x) s1 h r = absurd (cc r)
