-- ===== src/Router/Matching.antt =====
-- The name matching of gateway/router.py: exact names first, then the longest overlapping name.
use dmr.Prelude.{
  ℕ, ◌≤◌, ◌<◌, String, ◌≡◌, refl, sym, ap, ◌⊎◌, inl, inr, true, false, Option, none, some, List, [],
  ◌∷◌, arith, ltb, Text, text_eq, text_eq_sound, text_eq_refl, Elem, Bool-cases, length, ◌&&◌,
  Elem-append-cases, Elem-append_left, Elem-append_right,
}
use dmr.Config.{ModelDefinition, VramProfile, Registry, all_models_of}
use dmr.Router.{lower_name, overlaps, scan, with_names, owners, find_profile_for_model}

-- What the loop returns when no name is exact: the best so far, if nothing overlapping is longer,
-- or else an overlapping candidate that no other overlapping one exceeds.
abbrev pub NoLonger {ℓ} : {A : Type ℓ} → Text → ℕ → List (A × Text) → Type 0
NoLonger req n [] = Unit {0}
NoLonger req n ((a, name) ∷ cs) = (overlaps req name ≡ true → length name ≤ n) × NoLonger req n cs

abbrev pub NoExact {ℓ} : {A : Type ℓ} → Text → List (A × Text) → Type 0
NoExact req [] = Unit {0}
NoExact req ((a, name) ∷ cs) = (text_eq name req ≡ false) × NoExact req cs

abbrev pub Longest : {A : Type 0} → Text → List (A × Text) → A → Text → Type 0
Longest req cs a name =
    Elem (a, name) cs × (overlaps req name ≡ true) × NoLonger req (length name) cs

abbrev Outcome : {A : Type 0} → Text → List (A × Text) → Option A → ℕ → Option A → Type 0
Outcome {A} req cs best n o =
    ((o ≡ best) × NoLonger req n cs)
    ⊎ ((a : A) × (name : Text) × (o ≡ some a) × (n < length name) × Longest req cs a name)

scan-Outcome :
    {A : Type 0} (req : Text) (cs : List (A × Text)) (best : Option A) (n : ℕ)
    → NoExact req cs
    → Outcome req cs best n (scan req cs best n)
unfolding scan
scan-Outcome req [] best n x = inl (refl, tt)
scan-Outcome req ((a, name) ∷ cs) best n (x, xs) =
    elim (Bool-cases (overlaps req name && ltb n (length name))) [
      | inl better ↦ rw (x, better) (longer (scan-Outcome req cs (some a) (length name) xs) better)
      | inr worse ↦ rw (x, worse) (same (scan-Outcome req cs best n xs) worse)
    ]
  where
    longer :
        Outcome req cs (some a) (length name) (scan req cs (some a) (length name))
        → (overlaps req name && ltb n (length name)) ≡ true
        → Outcome req ((a, name) ∷ cs) best n (scan req cs (some a) (length name))
    longer (inl (e, h)) b =
        inr (a, name, e, ground arith, (inl refl, ground arith, (λ _. omega arith, h)))
    longer (inr (c, long, e, l, (m, o, h))) b =
        inr (c, long, e, ground arith, (inr m, o, (λ _. omega arith, h)))

    same :
        Outcome req cs best n (scan req cs best n)
        → (overlaps req name && ltb n (length name)) ≡ false
        → Outcome req ((a, name) ∷ cs) best n (scan req cs best n)
    same (inl (e, h)) b = inl (e, (λ o. ground arith, h))
    same (inr (c, long, e, l, (m, o, h))) b =
        inr (c, long, e, l, (inr m, o, (λ t. ground arith, h)))

-- An exact name decides.
scan-exact :
    {A : Type 0} (req : Text) (cs : List (A × Text)) (best : Option A) (n : ℕ) (a : A)
    → Elem (a, req) cs
    → (b : A) × (scan req cs best n ≡ some b) × Elem (b, req) cs
unfolding scan
scan-exact {A} req [] best n a m = absurd m
scan-exact {A} req ((c, name) ∷ cs) best n a m = elim (Bool-cases (text_eq name req)) [
  | inl e ↦ rw e (c, refl, inl (ap (λ t. (c, t)) (sym (text_eq_sound name req e))))
  | inr e ↦ rw e (later (scan-exact req cs _ _ a (tail m e)))
]
  where
    tail : Elem (a, req) ((c, name) ∷ cs) → text_eq name req ≡ false → Elem (a, req) cs
    tail (inl p) e = cc (e, text_eq_refl req, ap (λ (t : A × Text). text_eq t.1 req) p)
    tail (inr h) e = h

    later :
        {o : Option A}
        → (b : A) × (o ≡ some b) × Elem (b, req) cs
        → (b : A) × (o ≡ some b) × Elem (b, req) ((c, name) ∷ cs)
    later (b, p, h) = (b, p, inr h)

exact_or_not :
    {A : Type 0} (req : Text) (cs : List (A × Text)) → ((a : A) × Elem (a, req) cs) ⊎ NoExact req cs
exact_or_not req [] = inr tt
exact_or_not {A} req ((c, name) ∷ cs) = elim (Bool-cases (text_eq name req)) [
  | inl e ↦ inl (c, inl (ap (λ t. (c, t)) (sym (text_eq_sound name req e))))
  | inr e ↦ elim (exact_or_not req cs) [ inl (a, m) ↦ inl (a, inr m) | inr x ↦ inr (e, x) ]
]

-- What the loop returns is a candidate.
scan-Elem :
    {A : Type 0} (req : Text) (cs : List (A × Text)) (b : A)
    → scan req cs none 0 ≡ some b
    → (name : Text) × Elem (b, name) cs
scan-Elem {A} req cs b e = elim (exact_or_not req cs) [
  | inl (a, m) ↦ exact (scan-exact req cs none 0 a m)
  | inr x ↦ longest (scan-Outcome req cs none 0 x)
]
  where
    exact :
        (c : A) × (scan req cs none 0 ≡ some c) × Elem (c, req) cs
        → (name : Text) × Elem (b, name) cs
    exact (c, p, m) = (req, rw (b-eq c p) m)
      where
        b-eq : (c : A) → scan req cs none 0 ≡ some c → b ≡ c
        b-eq c p = ground arith

    longest : Outcome req cs none 0 (scan req cs none 0) → (name : Text) × Elem (b, name) cs
    longest (inl (p, h)) = cc
    longest (inr (c, name, p, l, (m, o, h))) = (name, rw (b-eq c p) m)
      where
        b-eq : (c : A) → scan req cs none 0 ≡ some c → b ≡ c
        b-eq c p = ground arith

module _ (p : VramProfile) (name : Text) where
  with_names-Elem :
      (q : VramProfile) (ms : List ModelDefinition)
      → Elem (p, name) (with_names q ms)
      → (p ≡ q) × ((m : ModelDefinition) × Elem m ms × (lower_name m ≡ name))
  unfolding with_names
  with_names-Elem q [] h = absurd h
  with_names-Elem q (m ∷ ms) (inl e) = (
    ap (λ (t : VramProfile × Text). t.0) e,
    (m, inl refl, sym (ap (λ (t : VramProfile × Text). t.1) e)),
  )
  with_names-Elem q (m ∷ ms) (inr h) =
      let (e, (x, i, l)) = with_names-Elem q ms h in (e, (x, inr i, l))

  -- The candidates of _find_profile_for_model are the models of the registered profiles.
  owners-Elem :
      (reg : Registry)
      → Elem (p, name) (owners reg)
      → (k : String) × (m : ModelDefinition) × Elem (k, p) reg
        × Elem m (all_models_of p)
        × (lower_name m ≡ name)
  unfolding owners
  owners-Elem [] h = absurd h
  owners-Elem ((k, q) ∷ ps) h =
      elim (Elem-append-cases (p, name) (with_names q (all_models_of q)) (owners ps) h) [
        | inl here ↦
            let (e, (m, i, l)) = with_names-Elem q (all_models_of q) here in
            (k, m, inl (ap (λ t. (k, t)) e), rw e i, l)
        | inr there ↦ let (j, m, r, i, l) = owners-Elem ps there in (j, m, inr r, i, l)
      ]

  Elem-with_names :
      (ms : List ModelDefinition) (m : ModelDefinition)
      → Elem m ms
      → lower_name m ≡ name
      → Elem (p, name) (with_names p ms)
  unfolding with_names
  Elem-with_names [] m h e = absurd h
  Elem-with_names (x ∷ ms) m (inl i) e = inl (ap (λ t. (p, t)) (cc (i, e, ap lower_name i)))
  Elem-with_names (x ∷ ms) m (inr i) e = inr (Elem-with_names ms m i e)

  Elem-owners :
      (reg : Registry) (k : String) (m : ModelDefinition)
      → Elem (k, p) reg
      → Elem m (all_models_of p)
      → lower_name m ≡ name
      → Elem (p, name) (owners reg)
  unfolding owners
  Elem-owners [] k m r i l = absurd r
  Elem-owners ((j, q) ∷ ps) k m (inl e) i l =
      let own : p ≡ q = ap (λ (t : String × VramProfile). t.1) e in
      Elem-append_left _ (with_names q (all_models_of q)) (owners ps)
        (rw (← own) (Elem-with_names (all_models_of p) m i l))
  Elem-owners ((j, q) ∷ ps) k m (inr r) i l =
      Elem-append_right _ (with_names q (all_models_of q)) (owners ps) (Elem-owners ps k m r i l)

-- The found profile is registered.
pub find_profile-registered :
    (req : Text) (reg : Registry) (p : VramProfile)
    → find_profile_for_model req reg ≡ some p
    → (k : String) × Elem (k, p) reg
unfolding find_profile_for_model
find_profile-registered req reg p e =
    let (name, m) = scan-Elem req (owners reg) p e in
    let (k, _, r, _, _) = owners-Elem p name reg m in (k, r)

-- A request that names a registered model exactly, up to case, is given a registered profile that
-- has a model of that very name, whatever other names overlap.
pub find_profile-exact :
    (reg : Registry) (k : String) (p : VramProfile) (m : ModelDefinition)
    → Elem (k, p) reg
    → Elem m (all_models_of p)
    → (q : VramProfile) × (find_profile_for_model (lower_name m) reg ≡ some q)
      × ((j : String) × (x : ModelDefinition) × Elem (j, q) reg
          × Elem x (all_models_of q)
          × (lower_name x ≡ lower_name m))
unfolding find_profile_for_model
find_profile-exact reg k p m r i =
    let (q, e, o) =
      scan-exact (lower_name m) (owners reg) none 0 p
        (Elem-owners p (lower_name m) reg k m r i refl) in
    (q, e, owners-Elem q (lower_name m) reg o)

-- When no name is exact: no profile is found only if no registered model with a name overlaps the
-- request; otherwise the profile owns an overlapping model, and no overlapping name is longer.
pub find_profile-Longest :
    (req : Text) (reg : Registry)
    → NoExact req (owners reg)
    → ((find_profile_for_model req reg ≡ none) × NoLonger req 0 (owners reg))
      ⊎ ((p : VramProfile) × (name : Text) × (find_profile_for_model req reg ≡ some p)
          × Longest req (owners reg) p name)
unfolding find_profile_for_model
find_profile-Longest req reg x = elim (scan-Outcome req (owners reg) none 0 x) [
  | inl (e, h) ↦ inl (e, h)
  | inr (p, name, e, _, w) ↦ inr (p, name, e, w)
]
