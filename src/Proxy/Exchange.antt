-- ===== src/Proxy/Exchange.antt =====
-- gateway/proxy.py: attempts that fail silently, and the first that does not.
use dmr.Prelude.{
  ℕ, zero, suc, ◌+◌, ◌≡◌, refl, sym, ap, ◌∙◌, String, Option, none, some, List, [], ◌∷◌, ◌++◌,
  arith,
}
use dmr.Proxy.{Event, post, sleep}

-- How many of the answers n, n + 1, … fail silently before one that does not; `none` if all of them do.
abbrev pub silences : {A : Type 0} → (A → Option String) → (ℕ → A) → ℕ → ℕ → Option ℕ
silences f answers n zero = none
silences f answers n (suc left) = elim (f (answers n)) [
  | none ↦ some 0
  | some e ↦ elim (silences f answers (suc n) left) [ none ↦ none | some d ↦ some (suc d) ]
]

-- d attempts from n on, each followed by a pause.
abbrev pub tried : ℕ → ℕ → List Event
tried n zero = []
tried n (suc d) = post n ∷ sleep 2 ∷ tried (suc n) d

-- d + 1 attempts from n on, with pauses between them.
abbrev pub tried_all : ℕ → ℕ → List Event
tried_all n zero = post n ∷ []
tried_all n (suc d) = post n ∷ sleep 2 ∷ tried_all (suc n) d

-- The exchange an independent reader expects: the first attempt that is not silent is told, after d retries, else an error.
abbrev pub exchange :
    {R : Type 0} → (ℕ → R × List Event) → R × List Event → ℕ → ℕ → Option ℕ → R × List Event
exchange heard unheard n left (some d) =
    ((heard (n + d)).0, tried n d ++ post (n + d) ∷ (heard (n + d)).1)
exchange heard unheard n left none = (unheard.0, tried_all n left ++ unheard.1)

pub plus_zero : (n : ℕ) → n + 0 ≡ n
plus_zero n = omega arith

abbrev later : Option ℕ → Option ℕ
later none = none
later (some d) = some (suc d)

pub silences-none :
    {A : Type 0} (f : A → Option String) (answers : ℕ → A) (n left : ℕ)
    → f (answers n) ≡ none
    → silences f answers n (suc left) ≡ some 0
silences-none f answers n left h = rw (h, silences) refl

pub silences-some :
    {A : Type 0} (f : A → Option String) (answers : ℕ → A) (n left : ℕ) (e : String)
    → f (answers n) ≡ some e
    → silences f answers n (suc left) ≡ later (silences f answers (suc n) left)
silences-some f answers n left e h = rw (h, silences) refl

-- One more silent attempt in front.
exchange-suc :
    {R : Type 0} (heard : ℕ → R × List Event) (unheard : R × List Event) (n left : ℕ) (o : Option ℕ)
    → (let r = exchange heard unheard (suc n) left o in (r.0, post n ∷ sleep 2 ∷ r.1))
      ≡ exchange heard unheard n (suc left) (later o)
exchange-suc heard unheard n left (some d) =
    let e : n + suc d ≡ suc n + d = omega arith in rw e refl
exchange-suc heard unheard n left none = refl

-- A silent attempt in front of an exchange.
pub exchange-silent :
    {R : Type 0} {A : Type 0} (f : A → Option String) (answers : ℕ → A)
    (heard unheard : ℕ → R × List Event) (n left : ℕ) (e : String) (r : R × List Event)
    → f (answers n) ≡ some e
    → r
      ≡ exchange heard (unheard (suc n + left)) (suc n) left (silences f answers (suc n) (suc left))
    → ◌≡◌ {A = R × List Event}
        (r.0, post n ∷ sleep 2 ∷ r.1)
        (exchange heard
          (unheard (n + suc left))
          n
          (suc left)
          (silences f answers n (suc (suc left))))
exchange-silent f answers heard unheard n left e r h k =
    let q : suc n + left ≡ n + suc left = omega arith in
    ap (λ r. (r.0, post n ∷ sleep 2 ∷ r.1)) k
    ∙ (exchange-suc heard (unheard (suc n + left)) n left (silences f answers (suc n) (suc left))
        ∙ (ap (exchange heard (unheard (suc n + left)) n (suc left))
              (sym (silences-some f answers n (suc left) e h))
            ∙ ap
                (λ i.
                  exchange heard (unheard i) n (suc left) (silences f answers n (suc (suc left))))
                q))
