-- ===== src/Orchestrator/Startup/Adoption.antt =====
-- detect_and_adopt_running_profile of gateway/orchestrator.py leaves external containers alone.
use mathlib.Core.Path.{subst}
use dmr.Prelude.{
  String, Bool, true, false, ◌||◌, Option, none, some, List, [], ◌∷◌, str_eq, eq_iff, if◌then◌else◌,
  ◌≡◌, refl, ap, All, All-Elem,
}
use dmr.Config.{ModelDefinition, VramProfile, is_exec, all_models_of}
use dmr.Orchestrator.Exec.{St, Result, ok, err, Exec, pure, continue, modify, ◌>>=◌}
use dmr.Orchestrator.Exec.Preserves.{
  Preserves, Preserves-pure, Preserves-bind, Preserves-if, Preserves-for_each,
}
use dmr.Orchestrator.Outside.{World}
use dmr.Orchestrator.Settings.{Settings, model_of_container}
use dmr.Orchestrator.Cluster.{check_health-Preserves, persist-Preserves, stop_exec_model-Preserves}
use dmr.Orchestrator.Lifecycle.{contains}
use dmr.Orchestrator.Startup.{
  Found, names_of, put_running, add_exec, detect, adopt_state, stop_orphan_model, remove_orphan,
  requires, adopt, detect_and_adopt_running_profile,
}
use dmr.Orchestrator.Startup.Safety.{complete_profile-IsThere}
use dmr.Orchestrator.Ownership.{IsExternal, IsUntouched, untouched, set_state-Preserves}

abbrev found_or : Found → Result Found → Found
found_or f (ok g) = g
found_or f (err x) = f

-- Everything that was found running is exec-managed.
abbrev Covered : Found → Type 0
Covered f = All (λ n. contains n f.exec_managed ≡ true) (names_of f.running)

-- The state stays in P, and what is returned is in Q.
record Yields {W A : Type 0} (P : St W → Type 0) (Q : A → Type 0) (run : Exec W A) : Type 0 where
  pub keeps : (s : St W) → P s → P (run s).1
  pub yields : (s : St W) (a : A) → P s → (run s).0 ≡ ok a → Q a

module _ {W A B : Type 0} {P : St W → Type 0} {Q : A → Type 0} where
  Yields-bind :
      (m : Exec W A) (f : A → Exec W B)
      → Yields P Q m
      → ((a : A) → Q a → Preserves P (f a))
      → Preserves P (m >>= f)
  unfolding ◌>>=◌
  Yields-bind m f h k = record {
    outcome = λ s p. go (m s).0 (m s).1 (h.keeps s p) (λ a e. h.yields s a p e);
  }
    where
      go : (r : Result A) (s : St W) → P s → ((a : A) → r ≡ ok a → Q a) → P (continue f (r, s)).1
      go (ok a) s p q = (k a (q a refl)).outcome s p
      go (err x) s p q = p

  Yields-after :
      (m : Exec W B) (f : B → Exec W A)
      → Preserves P m
      → ((b : B) → Yields P Q (f b))
      → Yields P Q (m >>= f)
  unfolding ◌>>=◌
  Yields-after m f h k = record {
    keeps = λ s p. kept (m s).0 (m s).1 (h.outcome s p);
    yields = λ s a p e. given (m s).0 (m s).1 a (h.outcome s p) e;
  }
    where
      kept : (r : Result B) (s : St W) → P s → P (continue f (r, s)).1
      kept (ok b) s p = (k b).keeps s p
      kept (err x) s p = p

      given : (r : Result B) (s : St W) (a : A) → P s → (continue f (r, s)).0 ≡ ok a → Q a
      given (ok b) s a p e = (k b).yields s a p e
      given (err x) s a p e = absurd (cc e)

or_true : (a b : Bool) → b ≡ true → a || b ≡ true
or_true true b h = refl
or_true false b h = h

contains-more :
    (k : String) (ks ns : List String)
    → All (λ n. contains n ks ≡ true) ns
    → All (λ n. contains n (k ∷ ks) ≡ true) ns
unfolding contains
contains-more k ks [] h = tt
contains-more k ks (n ∷ ns) (a, h) = (or_true (str_eq k n) _ a, contains-more k ks ns h)

contains-put :
    (k : String) (ks : List String) (kvs : List (String × String)) (v : String)
    → All (λ n. contains n ks ≡ true) (names_of kvs)
    → All (λ n. contains n (k ∷ ks) ≡ true) (names_of (put_running k v kvs))
unfolding contains names_of put_running
contains-put k ks [] v h = (rw ((eq_iff k k).1 refl) refl, tt)
contains-put k ks ((j, w) ∷ kvs) v (a, h) = pick (str_eq j k) (contains-put k ks kvs v h)
  where
    pick :
        (b : Bool)
        → All (λ n. contains n (k ∷ ks) ≡ true) (names_of (put_running k v kvs))
        → All
            (λ n. contains n (k ∷ ks) ≡ true)
            (names_of (if b then (j, v) ∷ kvs else (j, w) ∷ put_running k v kvs))
    pick true rest = (or_true (str_eq k j) _ a, contains-more k ks (names_of kvs) h)
    pick false rest = (or_true (str_eq k j) _ a, rest)

-- Every profile that may be started runs on exec engines, in external containers.
abbrev pub IsSafeProfile : Settings → VramProfile → Type 0
IsSafeProfile c p =
    All (λ m. is_exec m.engine ≡ true) (all_models_of p)
    × All (λ m. IsExternal c m.container_name) (all_models_of p)

module _ (e : World) (c : Settings) where
  add_exec-Covered :
      (m : ModelDefinition) (b : Bool) (f : Found) → Covered f → Covered (add_exec e c m b f)
  unfolding add_exec
  add_exec-Covered m true f h = contains-put m.container_name f.exec_managed f.running "running" h
  add_exec-Covered m false f h =
      contains-more m.container_name f.exec_managed (names_of f.running) h

  detect-Yields :
      (ms : List ModelDefinition) (f : Found)
      → All (λ m. is_exec m.engine ≡ true) ms
      → Covered f
      → Yields (IsUntouched c) Covered (detect e c ms f)
  unfolding detect pure
  detect-Yields [] f q h = record {
    keeps = λ s p. p;
    yields = λ s a p r. subst Covered (ap (found_or f) r) h;
  }
  detect-Yields (m ∷ ms) f (x, q) h = rw x (
      Yields-after _ _ (check_health-Preserves e (untouched c) m.container_name m.port)
        λ b. detect-Yields ms (add_exec e c m b f) q (add_exec-Covered m b f h))

  remove_orphan-Preserves :
      (f : Found) (ms : List ModelDefinition) (n : String)
      → contains n f.exec_managed ≡ true
      → Preserves {W = e.State} (IsUntouched c) (remove_orphan e c f ms n)
  unfolding remove_orphan stop_orphan_model
  remove_orphan-Preserves f ms n h =
      Preserves-if (requires n ms) _ _ (λ _. Preserves-pure tt)
        λ _. rw h (stop_orphan_model-Preserves (model_of_container n c.all_models))
    where
      stop_orphan_model-Preserves :
          (m : Option ModelDefinition)
          → Preserves {W = e.State} (IsUntouched c) (stop_orphan_model e c m)
      stop_orphan_model-Preserves none = Preserves-pure tt
      stop_orphan_model-Preserves (some m) = stop_exec_model-Preserves e c (untouched c) m

  adopt-Preserves :
      (f : Found) (o : Option (String × VramProfile))
      → Covered f
      → ((key : String) (p : VramProfile) → o ≡ some (key, p) → IsSafeProfile c p)
      → Preserves {W = e.State} (IsUntouched c) (adopt e c f o)
  unfolding adopt adopt_state modify
  adopt-Preserves f none h q = Preserves-pure none
  adopt-Preserves f (some (key, p)) h q =
      Preserves-bind _ _ (record { outcome = λ s u. record { quiet = u.quiet; live = u.live } })
        λ _.
          Preserves-bind _ _
            (Preserves-for_each _ _ λ m i.
              set_state-Preserves c _ _
                (λ _. All-Elem (λ m. IsExternal c m.container_name) m _ (q key p refl).1 i))
            λ _.
              Preserves-bind _ _
                (Preserves-for_each _ _ λ n i.
                  remove_orphan-Preserves f (all_models_of p) n
                    (All-Elem (λ n. contains n f.exec_managed ≡ true) n _ h i))
                λ _.
                  Preserves-bind _ _ (persist-Preserves e (untouched c) key)
                    λ _. Preserves-pure (some key)

  -- Where all models of the catalog run on exec engines, and all profiles of the registry in external containers.
  pub detect_and_adopt-Preserves :
      All (λ m. is_exec m.engine ≡ true) c.all_models
      → All (λ k. IsSafeProfile c k.1) c.registry
      → Preserves (IsUntouched c) (detect_and_adopt_running_profile e c)
  unfolding detect_and_adopt_running_profile names_of
  detect_and_adopt-Preserves q r = Yields-bind _ _ (detect-Yields c.all_models _ q tt) λ f h.
      adopt-Preserves f _ h λ key p o.
        All-Elem (λ k. IsSafeProfile c k.1) (key, p) c.registry r
          (complete_profile-IsThere f c.registry key p o).0
