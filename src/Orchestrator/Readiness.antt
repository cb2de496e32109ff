-- ===== src/Orchestrator/Readiness.antt =====
-- The container states of gateway/orchestrator.py through a switch that succeeds.
pub mod Switch
use mathlib.Core.Path.{subst}
use dmr.Prelude.{
  ℕ, zero, suc, String, str_eq, eq_iff, arith, ◌≡◌, refl, sym, ◌⊎◌, inl, inr, Bool, true, false,
  if◌then◌else◌, Option, none, some, List, [], ◌∷◌, All, Elem,
}
use dmr.Config.{ModelDefinition}
use dmr.Orchestrator.Exec.{
  St, ContainerState, starting, ready, Call, Error, Result, ok, err, Exec, pure, raise, catch,
  handle, continue, modify, ask, ◌>>=◌, ◌>>◌, for_each,
}
use dmr.Orchestrator.Exec.Preserves.{Preserves}
use dmr.Orchestrator.Cluster.{IsFrame}
use dmr.Orchestrator.Settings.{state_of, put_state, set_state}

-- The state of a container is starting or ready; is ready.
unfoldable pub IsUp : Option ContainerState → Type 0
IsUp o = (o ≡ some starting) ⊎ (o ≡ some ready)

unfoldable pub IsReady : Option ContainerState → Type 0
IsReady o = o ≡ some ready

-- Every one of these models is in a state that `P` allows.
unfoldable pub AllIn :
    {W : Type 0} → (Option ContainerState → Type 0) → List ModelDefinition → St W → Type 0
AllIn P ms s = All (λ m. P (state_of m.container_name s.container_states)) ms

pub state_of-put_state :
    (n k : String) (v : ContainerState) (kvs : List (String × ContainerState))
    → state_of k (put_state n v kvs) ≡ (if str_eq n k then some v else state_of k kvs)
unfolding state_of put_state
state_of-put_state n k v [] = refl
state_of-put_state n k v ((j, w) ∷ kvs) =
    ground (arith, state_of-put_state n k v kvs, eq_iff j n, eq_iff n k, eq_iff j k)

put_state-In :
    (P : Option ContainerState → Type 0) (n k : String) (v : ContainerState)
    (kvs : List (String × ContainerState))
    → P (some v)
    → P (state_of k kvs)
    → P (state_of k (put_state n v kvs))
put_state-In P n k v kvs h g = subst P (sym (state_of-put_state n k v kvs)) (pick (str_eq n k))
  where
    pick : (b : Bool) → P (if b then some v else state_of k kvs)
    pick true = h
    pick false = g

pub put_state_self :
    (n : String) (v : ContainerState) (kvs : List (String × ContainerState))
    → state_of n (put_state n v kvs) ≡ some v
put_state_self n v kvs = rw (state_of-put_state n n v kvs, (eq_iff n n).1 refl)

All-put :
    (P : Option ContainerState → Type 0) (ms : List ModelDefinition) (n : String)
    (v : ContainerState) (kvs : List (String × ContainerState))
    → P (some v)
    → All (λ m. P (state_of m.container_name kvs)) ms
    → All (λ m. P (state_of m.container_name (put_state n v kvs))) ms
All-put P [] n v kvs p h = tt
All-put P (m ∷ ms) n v kvs p h =
    (put_state-In P n m.container_name v kvs p h.0, All-put P ms n v kvs p h.1)

-- If `run` starts in `P` and returns, it ends in `Q`.
pub record Gives {W A : Type 0} (P Q : St W → Type 0) (run : Exec W A) : Type 0 where
  pub returns : (s : St W) (a : A) → P s → (run s).0 ≡ ok a → Q (run s).1

module _ {W : Type 0} (P : Option ContainerState → Type 0) where
  pub AllIn-frame : (ms : List ModelDefinition) → IsFrame {W = W} (AllIn P ms)
  unfolding AllIn ask
  AllIn-frame ms = record { asks = λ k f q. record { outcome = λ s h. h } }

  pub ask-AllIn :
      {A : Type 0} (ms : List ModelDefinition) (k : Call) (f : W → Result A × W)
      → Preserves (AllIn P ms) (ask k f)
  unfolding AllIn ask
  ask-AllIn ms k f = record { outcome = λ s h. h }

  -- Setting the state of a model's container to one that is allowed.
  pub set_state-Gives :
      (done : List ModelDefinition) (m : ModelDefinition) (v : ContainerState)
      → P (some v)
      → Gives {W = W} (AllIn P done) (AllIn P (m ∷ done)) (set_state m.container_name v)
  unfolding AllIn set_state modify
  set_state-Gives done m v p = record {
    returns = λ s a h e. (
      subst P (sym (put_state_self m.container_name v s.container_states)) p,
      All-put P done m.container_name v s.container_states p h,
    );
  }

  pub set_state-AllIn :
      (ms : List ModelDefinition) (n : String) (v : ContainerState)
      → P (some v)
      → Preserves {W = W} (AllIn P ms) (set_state n v)
  unfolding AllIn set_state modify
  set_state-AllIn ms n v p = record { outcome = λ s h. All-put P ms n v s.container_states p h }

module _ {W A : Type 0} {P Q : St W → Type 0} where
  pub Gives-raise : (x : Error) → Gives P Q (raise {A = A} x)
  unfolding raise
  Gives-raise x = record { returns = λ s a p e. absurd (cc e) }

  pub Gives-if :
      (b : Bool) (m n : Exec W A)
      → (b ≡ true → Gives P Q m)
      → (b ≡ false → Gives P Q n)
      → Gives P Q (if b then m else n)
  Gives-if true m n gm gn = gm refl
  Gives-if false m n gm gn = gn refl

  pub Gives-catch :
      (m : Exec W A) (h : Error → Exec W A)
      → Preserves P m
      → Gives P Q m
      → ((x : Error) → Gives P Q (h x))
      → Gives P Q (catch m h)
  unfolding catch
  Gives-catch m h pm gm gh = record {
    returns = λ s a p e. go (m s).0 (m s).1 a (pm.outcome s p) (λ b. gm.returns s b p) e;
  }
    where
      go :
          (r : Result A) (s : St W) (a : A)
          → P s
          → ((b : A) → r ≡ ok b → Q s)
          → (handle h (r, s)).0 ≡ ok a
          → Q (handle h (r, s)).1
      go (ok b) s a p q e = q b refl
      go (err x) s a p q e = (gh x).returns s a p e

pub Gives-preserved :
    {W A : Type 0} {P : St W → Type 0} (m : Exec W A) → Preserves P m → Gives P P m
Gives-preserved m h = record { returns = λ s a p e. h.outcome s p }

pub Gives-bind :
    {W A B : Type 0} {P Q R : St W → Type 0} (m : Exec W A) (f : A → Exec W B)
    → Gives P Q m
    → ((a : A) → Gives Q R (f a))
    → Gives P R (m >>= f)
unfolding ◌>>=◌
Gives-bind {W = W} {A = A} {B = B} {Q = Q} {R = R} m f gm gf = record {
  returns = λ s b p e. go (m s).0 (m s).1 b (λ a. gm.returns s a p) e;
}
  where
    go :
        (r : Result A) (s : St W) (b : B)
        → ((a : A) → r ≡ ok a → Q s)
        → (continue f (r, s)).0 ≡ ok b
        → R (continue f (r, s)).1
    go (ok a) s b q e = (gf a).returns s b (q a refl) e
    go (err x) s b q e = absurd (cc e)

-- A loop that brings one model after the other to `P`.
module _ {W : Type 0} (P : Option ContainerState → Type 0)
    (body : ModelDefinition → Exec W (Unit {0})) where
  pub Gives-for_each :
      (pre : St W → Type 0) (ms done : List ModelDefinition)
      → ((m : ModelDefinition) (done : List ModelDefinition)
          → Elem m ms
          → Gives (λ s. pre s × AllIn P done s) (λ s. pre s × AllIn P (m ∷ done) s) (body m))
      → Gives (λ s. pre s × AllIn P done s) (λ s. AllIn P ms s × AllIn P done s) (for_each ms body)
  unfolding for_each AllIn
  Gives-for_each pre [] done g = record { returns = λ s a p e. (tt, p.1) }
  Gives-for_each pre (m ∷ ms) done g = record {
    returns = λ s a p e.
        let all =
          (Gives-bind (body m) (λ _. for_each ms body) (g m done (inl refl))
              (λ _. Gives-for_each pre ms (m ∷ done) (λ n d i. g n d (inr i)))).returns
            s a p e in
        ((all.1.0, all.0), all.1.1);
  }
