-- ===== src/Backends/Worlds/Effects.antt =====
-- What actions of gateway/orchestrator.py come to, raised or not.
use mathlib.Core.Path.{subst}
use dmr.Prelude.{
  String, Bool, true, false, Option, str_eq, eq_iff, if◌then◌else◌, ◌≡◌, refl, sym, ◌∙◌, ap,
}
use dmr.Config.{
  Engine, vllm, ray_vllm, spark_cluster, comfyui, diffusers, is_exec, is_spark, is_ray,
}
use dmr.Orchestrator.Exec.{St, Error, Result, ok, err, Exec, catch, handle, continue, ◌>>=◌}
use dmr.Backends.Docker.Phases.{Statuses, update}

-- What an action comes to and what it leaves is as `p` says.
pub record Ends {W A : Type 0} (p : Result A → St W → Type 0) (m : Exec W A) (s : St W)
    : Type 0 where
  pub result : Result A
  pub final : St W
  pub ran : m s ≡ (result, final)
  pub holds : p result final

module _ {W A B : Type 0} {p : Result A → St W → Type 0} {q : Result B → St W → Type 0} where
  pub Ends-bind :
      (m : Exec W A) (k : A → Exec W B) (s : St W)
      → Ends p m s
      → ((a : A) (u : St W) → p (ok a) u → Ends q (k a) u)
      → ((x : Error) (u : St W) → p (err x) u → q (err x) u)
      → Ends q (m >>= k) s
  unfolding ◌>>=◌
  Ends-bind m k s h f g = pick h.result refl
    where
      pick : (r : Result A) → h.result ≡ r → Ends q (m >>= k) s
      pick (ok a) e =
          let t = f a h.final (subst (λ r. p r h.final) e h.holds) in
          record {
            result = t.result;
            final = t.final;
            ran = ap (continue k) (h.ran ∙ ap (λ r. (r, h.final)) e) ∙ t.ran;
            holds = t.holds;
          }
      pick (err x) e = record {
        result = err x;
        final = h.final;
        ran = ap (continue k) (h.ran ∙ ap (λ r. (r, h.final)) e);
        holds = g x h.final (subst (λ r. p r h.final) e h.holds);
      }

module _ {W A : Type 0} {p q : Result A → St W → Type 0} where
  pub Ends-catch :
      (m : Exec W A) (h : Error → Exec W A) (s : St W)
      → Ends p m s
      → ((a : A) (u : St W) → p (ok a) u → q (ok a) u)
      → ((x : Error) (u : St W) → p (err x) u → Ends q (h x) u)
      → Ends q (catch m h) s
  unfolding catch
  Ends-catch m h s e f g = pick e.result refl
    where
      pick : (r : Result A) → e.result ≡ r → Ends q (catch m h) s
      pick (ok a) d = record {
        result = ok a;
        final = e.final;
        ran = ap (handle h) (e.ran ∙ ap (λ r. (r, e.final)) d);
        holds = f a e.final (subst (λ r. p r e.final) d e.holds);
      }
      pick (err x) d =
          let t = g x e.final (subst (λ r. p r e.final) d e.holds) in
          record {
            result = t.result;
            final = t.final;
            ran = ap (handle h) (e.ran ∙ ap (λ r. (r, e.final)) d) ∙ t.ran;
            holds = t.holds;
          }

pub Ends-map :
    {W A : Type 0} {p q : Result A → St W → Type 0} (m : Exec W A) (s : St W)
    → Ends p m s
    → ((r : Result A) (u : St W) → p r u → q r u)
    → Ends q m s
Ends-map m s h f = record {
  result = h.result;
  final = h.final;
  ran = h.ran;
  holds = f h.result h.final h.holds;
}

-- A question that is answered, and what is done with the answer.
pub Ends-got :
    {W A B : Type 0} {q : Result B → St W → Type 0} (m : Exec W A) (k : A → Exec W B) (s u : St W)
    (a : A)
    → m s ≡ (ok a, u)
    → Ends q (k a) u
    → Ends q (m >>= k) s
unfolding ◌>>=◌
Ends-got m k s u a e h = record {
  result = h.result;
  final = h.final;
  ran = ap (continue k) e ∙ h.ran;
  holds = h.holds;
}

pub Ends-if :
    {W A : Type 0} {p : Result A → St W → Type 0} (b : Bool) (m n : Exec W A) (s : St W)
    → (b ≡ true → Ends p m s)
    → (b ≡ false → Ends p n s)
    → Ends p (if b then m else n) s
Ends-if true m n s h k = h refl
Ends-if false m n s h k = k refl

pub update-twice :
    (n : String) (v w : Option String) (f : Statuses) → update n v (update n w f) ≡ update n v f
update-twice n v w f = λ i m. again (str_eq n m) (f m) i
  where
    again :
        (b : Bool) (x : Option String)
        → (if b then v else (if b then w else x)) ≡ (if b then v else x)
    again true x = refl
    again false x = refl

pub update-there : (n : String) (v : Option String) (f : Statuses) → f n ≡ v → f ≡ update n v f
update-there n v f e = λ i m.
    (elim (str_eq n m) as (λ b. (b ≡ true → n ≡ m) → f m ≡ (if b then v else f m)) [
      | true ↦ λ h. ap f (sym (h refl)) ∙ e
      | false ↦ λ h. refl
    ]
        (eq_iff n m).0)
      i

-- A model that runs on no exec engine has a container of its own.
pub own_engine : (k : Engine) → is_exec k ≡ false → (is_spark k ≡ false) × (is_ray k ≡ false)
unfolding is_exec is_spark is_ray
own_engine vllm q = (refl, refl)
own_engine ray_vllm q = cc
own_engine spark_cluster q = cc
own_engine comfyui q = (refl, refl)
own_engine diffusers q = (refl, refl)
