-- ===== src/Orchestrator/Exec/Preserves.antt =====
-- Invariants of actions: one rule for each way to build an action.
use dmr.Prelude.{◌≡◌, refl, Bool, true, false, if◌then◌else◌, List, [], ◌∷◌, Elem, inl, inr}
use dmr.Orchestrator.Exec.{
  St, Error, Result, ok, err, Exec, pure, raise, gets, handle, catch, continue, ◌>>=◌, for_each,
}

-- After `run` the state is still in `P`, also when `run` raised.
pub record Preserves {W A : Type 0} (P : St W → Type 0) (run : Exec W A) : Type 0 where
  pub outcome : (s : St W) → P s → P (run s).1

module _ {W A : Type 0} {P : St W → Type 0} where
  -- A test: each branch may use the test's value.
  pub Preserves-if :
      (test : Bool) (yes_branch no_branch : Exec W A)
      → (test ≡ true → Preserves P yes_branch)
      → (test ≡ false → Preserves P no_branch)
      → Preserves P (if test then yes_branch else no_branch)
  Preserves-if false _ _ _ no_case = no_case refl
  Preserves-if true _ _ yes_case _ = yes_case refl

  pub Preserves-gets : (read : St W → A) → Preserves P (gets read)
  unfolding gets
  Preserves-gets read = record { outcome = λ _ p. p }

  pub Preserves-raise : (x : Error) → Preserves P (raise {A = A} x)
  unfolding raise
  Preserves-raise x = record { outcome = λ _ p. p }

  pub Preserves-pure : (value : A) → Preserves P (pure value)
  unfolding pure
  Preserves-pure value = record { outcome = λ _ p. p }

  Preserves-handle :
      (h : Error → Exec W A) (r : Result A) (s : St W)
      → P s
      → ((e : Error) → Preserves P (h e))
      → P (handle h (r, s)).1
  Preserves-handle h (ok a) s p k = p
  Preserves-handle h (err e) s p k = (k e).outcome s p

  pub Preserves-catch :
      (m : Exec W A) (h : Error → Exec W A)
      → Preserves P m
      → ((e : Error) → Preserves P (h e))
      → Preserves P (catch m h)
  unfolding catch
  Preserves-catch m h km kh = record {
    outcome = λ s p. Preserves-handle h (m s).0 (m s).1 (km.outcome s p) kh;
  }

module _ {W A B : Type 0} {P : St W → Type 0} where
  Preserves-continue :
      (f : A → Exec W B) (r : Result A) (s : St W)
      → P s
      → ((a : A) → Preserves P (f a))
      → P (continue f (r, s)).1
  Preserves-continue f (ok a) s p k = (k a).outcome s p
  Preserves-continue f (err e) s p k = p

  pub Preserves-bind :
      (m : Exec W A) (f : A → Exec W B)
      → Preserves P m
      → ((a : A) → Preserves P (f a))
      → Preserves P (m >>= f)
  unfolding ◌>>=◌
  Preserves-bind m f km kf = record {
    outcome = λ s p. Preserves-continue f (m s).0 (m s).1 (km.outcome s p) kf;
  }

pub Preserves-for_each :
    {W A : Type 0} {P : St W → Type 0} (xs : List A) (body : A → Exec W (Unit {0}))
    → ((a : A) → Elem a xs → Preserves P (body a))
    → Preserves P (for_each xs body)
unfolding for_each
Preserves-for_each [] body k = record { outcome = λ s p. p }
Preserves-for_each (x ∷ xs) body k = record {
  outcome = λ s p.
      (Preserves-bind (body x) (λ _. for_each xs body) (k x (inl refl))
          (λ _. Preserves-for_each xs body (λ a m. k a (inr m)))).outcome
        s p;
}

pub ruleset preserve_rules = (
  Preserves-pure, Preserves-raise, Preserves-gets, Preserves-if, Preserves-catch, Preserves-bind,
  Preserves-for_each,
)
