-- ===== src/Watchdog/Marks.antt =====
-- The models that the watchdog takes out of service.
use dmr.Prelude.{
  ◌≡◌, ◌≢◌, refl, sym, ap, ◌∙◌, inl, inr, String, Bool, true, false, Option, none, some, List, [],
  ◌∷◌, str_eq, if◌then◌else◌, Elem,
}
use mathlib.Core.Path.{subst}
use dmr.Config.{ModelDefinition, VramProfile, is_ray, is_exec, all_models_of}
use dmr.Orchestrator.Exec.{
  ContainerState, ready, error, Call, St, Exec, Result, ok, pure, gets, modify, ask, continue,
  ◌>>=◌, for_each,
}
use dmr.Orchestrator.Exec.Preserves.{Preserves, Preserves-for_each}
use dmr.Orchestrator.Outside.{World}
use dmr.Orchestrator.Outside
use dmr.Orchestrator.Settings.{Settings, state_of, set_state}
use dmr.Orchestrator.Ray.{find_ray_head}
use dmr.Orchestrator.RayStatus.{profile_named, active_vram_profile, check_ray_requirement}
use dmr.Orchestrator.Cluster.{find_ray_head-Preserves}
use dmr.Orchestrator.Readiness.{
  Gives, Gives-bind, Gives-preserved, Gives-if, state_of-put_state, put_state_self,
}
use dmr.Watchdog.{
  mem_text, ray_degraded, is_ready, loaded, mark_if_ready, mark_ray, probe_model, check_model,
  mark_headless, check_models, tick_with, ray_watchdog_tick,
}
use dmr.Watchdog.Degrades.{IsStable, On, frame, On-IsMarkable}
use dmr.Watchdog.Passes.{
  check_models-Preserves, check_model-Preserves, mark_ray-Preserves, mark_headless-Preserves,
  check_ray_requirement-Preserves,
}

-- A loop in which one round brings about Q, which the other rounds keep.
for_each-Gives :
    {W A : Type 0} {P Q : St W → Type 0} (xs : List A) (x : A) (body : A → Exec W (Unit {0}))
    → Elem x xs
    → Gives P Q (body x)
    → ((y : A) → Preserves P (body y))
    → ((y : A) → Preserves Q (body y))
    → Gives P Q (for_each xs body)
unfolding for_each
for_each-Gives [] x body m g p q = absurd m
for_each-Gives {P = P} {Q = Q} (y ∷ ys) x body (inl e) g p q =
    Gives-bind (body y) (λ _. for_each ys body) (subst (λ z. Gives P Q (body z)) e g)
      (λ _. Gives-preserved (for_each ys body) (Preserves-for_each ys body (λ z _. q z)))
for_each-Gives (y ∷ ys) x body (inr m) g p q =
    Gives-bind (body y) (λ _. for_each ys body) (Gives-preserved (body y) (p y))
      (λ _. for_each-Gives ys x body m g p q)

abbrev IsError : String → List (String × ContainerState) → Type 0
IsError n kvs = state_of n kvs ≡ some error

IsError-IsStable : (n : String) → IsStable (IsError n)
IsError-IsStable n = record {
  marks = λ j kvs h. state_of-put_state j n error kvs ∙ pick (str_eq j n) kvs h;
}
  where
    pick :
        (b : Bool) (kvs : List (String × ContainerState))
        → IsError n kvs
        → (if b then some error else state_of n kvs) ≡ some error
    pick true kvs h = refl
    pick false kvs h = h

abbrev NotReady : String → List (String × ContainerState) → Type 0
NotReady n kvs = state_of n kvs ≢ some ready

NotReady-IsStable : (n : String) → IsStable (NotReady n)
NotReady-IsStable n = record {
  marks = λ j kvs h e. pick (str_eq j n) kvs h (sym (state_of-put_state j n error kvs) ∙ e);
}
  where
    pick :
        (b : Bool) (kvs : List (String × ContainerState))
        → NotReady n kvs
        → (if b then some error else state_of n kvs) ≢ some ready
    pick true kvs h e = cc
    pick false kvs h e = h e

bind_ok :
    {W A B : Type 0} (m : Exec W A) (f : A → Exec W B) (s : St W) (a : A)
    → (m s).0 ≡ ok a
    → (m >>= f) s ≡ f a (m s).1
unfolding ◌>>=◌
bind_ok m f s a h = go (m s).0 h
  where
    go : (r : Result _) → r ≡ ok a → continue f (r, (m s).1) ≡ f a (m s).1
    go r h = rw h refl

abbrev Anything : List (String × ContainerState) → Type 0
Anything kvs = Unit {0}

Anything-IsStable : IsStable Anything
Anything-IsStable = record { marks = λ n kvs h. tt }

module _ (e : World) (c : Settings) (a : Option String) (m : ModelDefinition) where
  mark_ray-Gives :
      is_ray m.engine ≡ true
      → Gives {W = e.State} (On Anything a) (On (IsError m.container_name) a) (mark_ray m)
  unfolding mark_ray set_state modify
  mark_ray-Gives r =
      rw (r, mark_ray)
        (record {
          returns = λ s u h _. (put_state_self m.container_name error s.container_states, h.1);
        })

  headless-Gives :
      Elem m c.all_models
      → is_ray m.engine ≡ true
      → Gives {W = e.State} (On Anything a) (On (IsError m.container_name) a) (tick_with e c none)
  unfolding tick_with mark_headless
  headless-Gives i r =
      Gives-bind (for_each c.all_models mark_ray) (λ _. check_models e c none)
        (for_each-Gives c.all_models m mark_ray i (mark_ray-Gives r)
          (mark_ray-Preserves e c (On-IsMarkable e c Anything-IsStable a))
          (mark_ray-Preserves e c (On-IsMarkable e c (IsError-IsStable m.container_name) a)))
        (λ _. Gives-preserved (check_models e c none) (
          check_models-Preserves e c (On-IsMarkable e c (IsError-IsStable m.container_name) a)
            none))

  is_ready-false : (o : Option ContainerState) → is_ready o ≡ false → o ≢ some ready
  unfolding is_ready
  is_ready-false o h q = let t : is_ready o ≡ true = ap is_ready q in cc (sym h ∙ t)

  mark_if_ready-Gives :
      Gives {W = e.State} (On Anything a) (On (NotReady m.container_name) a) (mark_if_ready m)
  unfolding mark_if_ready ◌>>=◌ gets set_state modify pure
  mark_if_ready-Gives = record {
    returns = λ s u h _. pick s h (is_ready (state_of m.container_name s.container_states)) refl;
  }
    where
      pick :
          (s : St e.State)
          → On Anything a s
          → (b : Bool) → is_ready (state_of m.container_name s.container_states) ≡ b
          → On
              (NotReady m.container_name)
              a
              ((if b then set_state m.container_name error else pure tt) s).1
      pick s h true q =
          ((λ r. cc (sym (put_state_self m.container_name error s.container_states) ∙ r)), h.1)
      pick s h false q = (is_ready-false _ q, h.1)

  -- The model never answers its health check.
  abbrev pub Unhealthy : Type 0
  Unhealthy = (w : e.State) → (e.check_health m.container_name m.port w).0 ≡ false

  probe_model-Gives :
      Unhealthy
      → Gives {W = e.State} (On Anything a) (On (NotReady m.container_name) a) (probe_model e c m)
  unfolding probe_model ◌>>=◌ Outside.check_health ask
  probe_model-Gives u = record {
    returns =
        λ s v h q. pick s h ((e.check_health m.container_name m.port s.world).0) (u s.world) q;
  }
    where
      pick :
          (s : St e.State)
          → On Anything a s
          → (b : Bool) → b ≡ false
          → (let t = record s {
            world = (e.check_health m.container_name m.port s.world).1;
            calls = Call.check_health m.container_name m.port ∷ s.calls;
          } in
              ((if b then pure tt else mark_if_ready m) t).0 ≡ ok tt
              → On (NotReady m.container_name) a ((if b then pure tt else mark_if_ready m) t).1)
      pick s h true z q = absurd (cc z)
      pick s h false z q = mark_if_ready-Gives.returns _ tt h q

  check_model-Gives :
      is_exec m.engine ≡ true
      → is_ray m.engine ≡ false
      → Unhealthy
      → (h : Option String) (d : List String)
      → Gives {W = e.State}
          (On Anything a)
          (On (NotReady m.container_name) a)
          (check_model e c h d m)
  unfolding check_model
  check_model-Gives x r u h d =
      rw (x, r, check_model)
        (Gives-if (mem_text m.name d) (mark_if_ready m) (probe_model e c m)
          (λ _. mark_if_ready-Gives) (λ _. probe_model-Gives u))

  loop-Gives :
      (p : Option VramProfile) (q : VramProfile)
      → p ≡ some q
      → Elem m (all_models_of q)
      → is_exec m.engine ≡ true
      → is_ray m.engine ≡ false
      → Unhealthy
      → (h : Option String) (d : List String)
      → Gives {W = e.State}
          (On Anything a)
          (On (NotReady m.container_name) a)
          (for_each (loaded p) (check_model e c h d))
  unfolding loaded
  loop-Gives none q z i x r u h d = absurd (cc z)
  loop-Gives (some p) q z i x r u h d =
      let k : p ≡ q = cc in
      for_each-Gives (all_models_of p) m (check_model e c h d)
        (subst (λ o. Elem m (all_models_of o)) (sym k) i) (check_model-Gives x r u h d)
        (check_model-Preserves e c (On-IsMarkable e c Anything-IsStable a) h d)
        (check_model-Preserves e c (On-IsMarkable e c (NotReady-IsStable m.container_name) a) h d)

  check_models-Gives :
      (q : VramProfile)
      → profile_named c a ≡ some q
      → Elem m (all_models_of q)
      → is_exec m.engine ≡ true
      → is_ray m.engine ≡ false
      → Unhealthy
      → (h : Option String)
      → Gives {W = e.State} (On Anything a) (On (NotReady m.container_name) a) (check_models e c h)
  unfolding check_models gets active_vram_profile ◌>>=◌
  check_models-Gives q z i x r u h =
      Gives-bind (check_ray_requirement e c) _
        (Gives-preserved (check_ray_requirement e c)
          (check_ray_requirement-Preserves e c (On-IsMarkable e c Anything-IsStable a)))
        (λ status. record {
          returns = λ s v p.
              (loop-Gives (profile_named c s.active_profile) q (ap (profile_named c) p.1 ∙ z) i x r
                  u h (ray_degraded status)).returns
                s v p;
        })

  tick_with-Gives :
      (q : VramProfile)
      → profile_named c a ≡ some q
      → Elem m (all_models_of q)
      → is_exec m.engine ≡ true
      → is_ray m.engine ≡ false
      → Unhealthy
      → (h : Option String)
      → Gives {W = e.State} (On Anything a) (On (NotReady m.container_name) a) (tick_with e c h)
  unfolding tick_with
  tick_with-Gives q z i x r u h =
      Gives-bind (mark_headless e c h) (λ _. check_models e c h)
        (Gives-preserved (mark_headless e c h)
          (mark_headless-Preserves e c (On-IsMarkable e c Anything-IsStable a) h))
        (λ _. check_models-Gives q z i x r u h)

-- A pass that returns leaves no loaded model of a spark cluster READY whose health check answers no.
pub ray_watchdog_tick-NotReady :
    (e : World) (c : Settings) (s : St e.State) (m : ModelDefinition) (p : VramProfile)
    → active_vram_profile c s ≡ some p
    → Elem m (all_models_of p)
    → is_exec m.engine ≡ true
    → is_ray m.engine ≡ false
    → Unhealthy e c s.active_profile m
    → (ray_watchdog_tick e c s).0 ≡ ok tt
    → state_of m.container_name (ray_watchdog_tick e c s).1.container_states ≢ some ready
unfolding ray_watchdog_tick active_vram_profile
ray_watchdog_tick-NotReady e c s m p z i x r u q =
    ((Gives-bind (find_ray_head e) (tick_with e c)
        (Gives-preserved (find_ray_head e)
          (find_ray_head-Preserves e (frame e c Anything-IsStable s.active_profile)))
        (tick_with-Gives e c s.active_profile m p z i x r u)).returns
      s tt (tt, refl) q).0

-- A pass that finds no Ray head and returns leaves every ray_vllm model of the catalog ERROR.
pub ray_watchdog_tick-headless :
    (e : World) (c : Settings) (s : St e.State) (m : ModelDefinition)
    → Elem m c.all_models
    → is_ray m.engine ≡ true
    → (find_ray_head e s).0 ≡ ok none
    → (ray_watchdog_tick e c s).0 ≡ ok tt
    → state_of m.container_name (ray_watchdog_tick e c s).1.container_states ≡ some error
unfolding ray_watchdog_tick
ray_watchdog_tick-headless e c s m i r h q =
    let run = bind_ok (find_ray_head e) (tick_with e c) s none h in
    rw run
      ((headless-Gives e c (find_ray_head e s).1.active_profile m i r).returns (find_ray_head e s).1
        tt (tt, refl) (ap (λ z. z.0) (sym run) ∙ q)).0
