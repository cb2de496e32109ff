-- ===== src/Identity/Context/Label.antt =====
-- The label that gateway/identity.py makes of a harness and the name of an agent.
use dmr.Prelude.{
  ◌==◌, Bool, true, false, ◌||◌, sym, ◌∙◌, ◌⊎◌, inl, inr, ◌++◌, codes, All, has_prefix, text_eq,
  text_eq_refl, text_eq_sound, if◌then◌else◌, ℕ, ◌≡◌, refl, ap, [], ◌∷◌, Text, arith,
}
use dmr.Identity.{before, is_empty}
use dmr.Identity.Context.{composed}

-- The harness without the fingerprint that was put behind it: what stands before the first "~".
abbrev pub IsBase : Text → Text → Type 0
IsBase h b = All (λ c. c == b'~' ≡ false) b × ((h ≡ b) ⊎ ((rest : Text) × (h ≡ b ++ (b'~' ∷ rest))))

-- A harness that says nothing beside the name: none, the name itself, an address or a key.
abbrev pub IsPlain : Text → Text → Type 0
IsPlain b name =
    (b ≡ [])
    ⊎ ((b ≡ name)
        ⊎ (((rest : Text) × (b ≡ codes "ip:" ++ rest))
            ⊎ ((rest : Text) × (b ≡ codes "key:" ++ rest))))

-- The label of a harness and a name: the harness as it stands until there is a name, then the name alone if the harness is plain,
-- and else both.
abbrev pub IsLabel : Text → Text → Text → Type 0
IsLabel h [] a = a ≡ h
IsLabel h (c ∷ t) a =
    (b : Text) × (IsBase h b
      × ((IsPlain b (c ∷ t) × (a ≡ c ∷ t))
          ⊎ ((¬ IsPlain b (c ∷ t)) × (a ≡ b ++ (codes "/" ++ (c ∷ t))))))

before-IsBase : (h : Text) → IsBase h (before b'~' h)
unfolding before
before-IsBase [] = (tt, inl refl)
before-IsBase (c ∷ t) = pick (c == b'~') refl (before-IsBase t)
  where
    pick :
        (b : Bool)
        → c == b'~' ≡ b
        → IsBase t (before b'~' t)
        → IsBase (c ∷ t) (if b then [] else c ∷ before b'~' t)
    pick true e r = (tt, inr (t, ap (◌∷ t) (ground (arith, e))))
    pick false e (a, inl q) = ((e, a), inl (ap (c ∷◌) q))
    pick false e (a, inr (rest, q)) = ((e, a), inr (rest, ap (c ∷◌) q))

has_prefix_sound : (p s : Text) → has_prefix p s ≡ true → (rest : Text) × (s ≡ p ++ rest)
unfolding has_prefix
has_prefix_sound [] s h = (s, refl)
has_prefix_sound (c ∷ p) [] h = cc
has_prefix_sound (c ∷ p) (d ∷ s) h =
    let (rest, e) = has_prefix_sound p s (ground (arith, h)) in
    let same : d ≡ c = ground (arith, h) in (rest, rw (same, e) refl)

has_prefix-append : (p rest : Text) → has_prefix p (p ++ rest) ≡ true
unfolding has_prefix
has_prefix-append [] rest = refl
has_prefix-append (c ∷ p) rest = ground (arith, has_prefix-append p rest)

plain_or :
    (a b c d : Bool)
    → (a ≡ true) ⊎ ((b ≡ true) ⊎ ((c ≡ true) ⊎ (d ≡ true)))
    → (a || b || c || d) ≡ true
plain_or a b c d h = ground (arith, h)

or_plain :
    (a b c d : Bool)
    → (a || b || c || d) ≡ true
    → (a ≡ true) ⊎ ((b ≡ true) ⊎ ((c ≡ true) ⊎ (d ≡ true)))
or_plain a b c d h = ground (arith, h)

-- The test of `composed`.
is_plain : Text → Text → Bool
is_plain b name =
    is_empty b || text_eq b name || has_prefix (codes "ip:") b || has_prefix (codes "key:") b

is_plain_complete : (b name : Text) → IsPlain b name → is_plain b name ≡ true
unfolding is_plain is_empty
is_plain_complete b name h =
    plain_or (is_empty b) (text_eq b name) (has_prefix (codes "ip:") b)
      (has_prefix (codes "key:") b) (tests h)
  where
    tests :
        IsPlain b name
        → (is_empty b ≡ true)
          ⊎ ((text_eq b name ≡ true)
              ⊎ ((has_prefix (codes "ip:") b ≡ true) ⊎ (has_prefix (codes "key:") b ≡ true)))
    tests (inl e) = inl (ap is_empty e)
    tests (inr (inl e)) = inr (inl (ap (text_eq b) (sym e) ∙ text_eq_refl b))
    tests (inr (inr (inl (rest, e)))) =
        inr (inr (inl (ap (has_prefix (codes "ip:")) e ∙ has_prefix-append (codes "ip:") rest)))
    tests (inr (inr (inr (rest, e)))) =
        inr (inr (inr (ap (has_prefix (codes "key:")) e ∙ has_prefix-append (codes "key:") rest)))

is_plain_sound : (b name : Text) → is_plain b name ≡ true → IsPlain b name
unfolding is_plain is_empty
is_plain_sound b name h = pick (or_plain _ _ _ _ h)
  where
    none_of : (t : Text) → is_empty t ≡ true → t ≡ []
    none_of [] e = refl
    none_of (c ∷ t) e = cc

    pick :
        (is_empty b ≡ true)
          ⊎ ((text_eq b name ≡ true)
              ⊎ ((has_prefix (codes "ip:") b ≡ true) ⊎ (has_prefix (codes "key:") b ≡ true)))
        → IsPlain b name
    pick (inl e) = inl (none_of b e)
    pick (inr (inl e)) = inr (inl (text_eq_sound b name e))
    pick (inr (inr (inl e))) = inr (inr (inl (has_prefix_sound _ b e)))
    pick (inr (inr (inr e))) = inr (inr (inr (has_prefix_sound _ b e)))

composed-cases :
    (b name : Text)
    → (IsPlain b name × (composed b name ≡ name))
      ⊎ ((¬ IsPlain b name) × (composed b name ≡ b ++ (codes "/" ++ name)))
unfolding composed is_plain
composed-cases b name = pick (is_plain b name) refl
  where
    not_both : true ≡ false → ⊥
    not_both e = cc

    pick :
        (x : Bool)
        → is_plain b name ≡ x
        → (IsPlain b name × ((if x then name else b ++ (codes "/" ++ name)) ≡ name))
          ⊎ ((¬ IsPlain b name)
              × ((if x then name else b ++ (codes "/" ++ name)) ≡ b ++ (codes "/" ++ name)))
    pick true e = inl (is_plain_sound b name e, refl)
    pick false e = inr ((λ h. absurd (not_both (sym (is_plain_complete b name h) ∙ e))), refl)

pub composed-IsLabel :
    (h : Text) (c : ℕ) (t : Text) → IsLabel h (c ∷ t) (composed (before b'~' h) (c ∷ t))
composed-IsLabel h c t = (before b'~' h, (before-IsBase h, composed-cases (before b'~' h) (c ∷ t)))
