-- ===== src/Identity/Labels.antt =====
-- gateway/identity.py: when a caller cannot be labelled.
use mathlib.Core.List.{reverse, reverse-append, reverse-cons}
use dmr.Prelude.{
  ℕ, ◌≡◌, refl, ◌∙◌, Bool, true, false, not, ◌&&◌, Option, none, some, [], ◌∷◌, ◌++◌, ◌==◌, Text,
  codes, has_prefix, is_space, lstrip, strip, if◌then◌else◌, arith, Bool-cases, ◌⊎◌, inl, inr,
}
use dmr.Identity.{
  Headers, before, word_of, first_word, shortened, product_of, product_token, is_empty, explicit_of,
  token_of, header_or_empty, key_label, anonymous, identify, take,
}

abbrev pub is_none : {A : Type 0} → Option A → Bool
is_none none = true
is_none (some a) = false

-- The text is empty, or begins with something else than white space.
abbrev IsSolid : Text → Type 0
IsSolid [] = Unit {0}
IsSolid (c ∷ t) = is_space c ≡ false

lstrip-IsSolid : (t : Text) → IsSolid (lstrip t)
unfolding lstrip
lstrip-IsSolid [] = tt
lstrip-IsSolid (c ∷ t) = pick (Bool-cases (is_space c)) (lstrip-IsSolid t)
  where
    pick :
        (is_space c ≡ true) ⊎ (is_space c ≡ false)
        → IsSolid (lstrip t)
        → IsSolid (if is_space c then lstrip t else c ∷ t)
    pick (inl e) h = rw e h
    pick (inr e) h = rw e e

lstrip-snoc :
    (x : Text) (c : ℕ) → is_space c ≡ false → (y : Text) × (lstrip (x ++ c ∷ []) ≡ y ++ c ∷ [])
unfolding lstrip
lstrip-snoc [] c h = ([], rw h refl)
lstrip-snoc (d ∷ x) c h = pick (Bool-cases (is_space d)) (lstrip-snoc x c h)
  where
    pick :
        (is_space d ≡ true) ⊎ (is_space d ≡ false)
        → ((y : Text) × (lstrip (x ++ c ∷ []) ≡ y ++ c ∷ []))
        → (y : Text) × ((if is_space d then lstrip (x ++ c ∷ []) else d ∷ (x ++ c ∷ []))
            ≡ y ++ c ∷ [])
    pick (inl e) (y, q) = (y, rw e q)
    pick (inr e) r = (d ∷ x, rw e refl)

strip-IsSolid : (t : Text) → IsSolid (strip t)
unfolding strip
strip-IsSolid t = of (lstrip t) (lstrip-IsSolid t)
  where
    of : (u : Text) → IsSolid u → IsSolid (reverse (lstrip (reverse u)))
    of [] h = tt
    of (c ∷ u) h =
        let (y, q) = lstrip-snoc (reverse u) c h in
        rw (reverse-cons c u, q, reverse-append y (c ∷ [])) h

product_of-raises : (t : Text) → IsSolid t → is_none (product_of t) ≡ has_prefix (codes "/") t
unfolding product_of first_word word_of before has_prefix lstrip shortened
product_of-raises [] h = refl
product_of-raises (c ∷ t) h = pick (c == b'/') ∙ slash
  where
    slash : (c == b'/') ≡ (b'/' == c && true)
    slash = ground arith

    pick :
        (b : Bool) → is_none (shortened 32 (first_word (if b then [] else c ∷ before b'/' t))) ≡ b
    pick true = refl
    pick false = rw (h, lstrip) refl

key_label-raises : (d : Text) (o : Option Text) → is_none (key_label d o) ≡ is_none o
unfolding key_label
key_label-raises d none = refl
key_label-raises d (some []) = refl
key_label-raises d (some (c ∷ t)) = refl

-- A key is sent, without a name of the caller's own, and no name is configured for it.
abbrev pub has_unknown_key : Headers → Headers → Bool
has_unknown_key keys hs =
    is_empty (explicit_of hs)
    && (not (is_empty (token_of hs)) && is_empty (header_or_empty (token_of hs) keys))

-- identify raises (an IndexError) just if a caller without a name of its own sends a key that no name is configured for,
-- with a User-Agent that begins with "/" after white space.
pub identify-raises :
    (keys : Headers) (digest : Text → Text) (hs : Headers) (ip : Text)
    → is_none (identify keys digest hs ip) ≡ (
        has_unknown_key keys hs
        && has_prefix (codes "/") (strip (header_or_empty (codes "user-agent") hs)))
unfolding identify product_token
identify-raises keys digest hs ip =
    pick (is_empty (explicit_of hs)) (is_empty (token_of hs))
      (is_empty (header_or_empty (token_of hs) keys)) (take 64 (strip (explicit_of hs)))
      (anonymous hs ip) (header_or_empty (token_of hs) keys)
  where
    ua : Text
    ua = header_or_empty (codes "user-agent") hs

    pick :
        (a b c : Bool) (x y z : Text)
        → is_none (
            if not a
            then some x
            else (if b
                then some y
                else (if not c
                    then some z
                    else key_label (digest (token_of hs)) (product_of (strip ua)))))
          ≡ ((a && (not b && c)) && has_prefix (codes "/") (strip ua))
    pick false b c x y z = refl
    pick true true c x y z = refl
    pick true false false x y z = refl
    pick true false true x y z =
        key_label-raises (digest (token_of hs)) (product_of (strip ua))
        ∙ product_of-raises (strip ua) (strip-IsSolid ua)
