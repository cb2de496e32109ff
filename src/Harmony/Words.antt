-- ===== src/Harmony/Words.antt =====
-- The texts in a header: white space, " to=" and the first word.
use mathlib.Core.List.{reverse, reverse-append, reverse-reverse, reverse-cons, append_assoc}
use dmr.Prelude.{
  ℕ, ◌≡◌, ◌≢◌, refl, sym, ap, ◌∙◌, false, Option, none, some, [], ◌∷◌, ◌++◌, Text, codes, strip,
  lstrip, is_space, arith, All, All-append,
}
use dmr.Harmony.{after_prefix, or_nil, header_of}
use dmr.Harmony.Parser.{after_to, first_word, channel_name, strip_some}

-- An empty recipient counts as none.
unfoldable pub named : Option Text → Option Text
named none = none
named (some []) = none
named (some (c ∷ t)) = some (c ∷ t)

-- Not empty, and no white space.
pub record IsWord (t : Text) : Type 0 where
  pub not_nil : t ≢ []
  pub solid : All (λ c. is_space c ≡ false) t

lstrip-solid : (c : ℕ) (t : Text) → is_space c ≡ false → lstrip (c ∷ t) ≡ c ∷ t
unfolding lstrip
lstrip-solid c t h = rw h refl

lstrip-word : (t rest : Text) → IsWord t → lstrip (t ++ rest) ≡ t ++ rest
lstrip-word [] rest w = absurd (w.not_nil refl)
lstrip-word (c ∷ t) rest w = lstrip-solid c (t ++ rest) w.solid.0

All-reverse :
    (t : Text) → All (λ c. is_space c ≡ false) t → All (λ c. is_space c ≡ false) (reverse t)
All-reverse [] h = tt
All-reverse (c ∷ t) h =
    rw (reverse-cons c t)
      (All-append (λ d. is_space d ≡ false) (reverse t) (c ∷ []) (All-reverse t h.1) (h.0, tt))

reverse-IsWord : (t : Text) → IsWord t → IsWord (reverse t)
reverse-IsWord t w = record {
  not_nil = λ e. w.not_nil (sym (reverse-reverse t) ∙ ap reverse e);
  solid = All-reverse t w.solid;
}

strip-fixed : (s : Text) → lstrip s ≡ s → lstrip (reverse s) ≡ reverse s → strip s ≡ s
unfolding strip
strip-fixed s h k = rw (h, k) (reverse-reverse s)

reverse-ends :
    (a mid b : Text) → reverse (a ++ (mid ++ b)) ≡ reverse b ++ (reverse mid ++ reverse a)
reverse-ends a mid b =
    reverse-append a (mid ++ b)
    ∙ (ap (◌++ reverse a) (reverse-append mid b)
        ∙ append_assoc (reverse b) (reverse mid) (reverse a))

-- Nothing is stripped off a text whose ends are words.
pub strip-ends : (a mid b : Text) → IsWord a → IsWord b → strip (a ++ (mid ++ b)) ≡ a ++ (mid ++ b)
strip-ends a mid b v w = strip-fixed (a ++ (mid ++ b)) (lstrip-word a (mid ++ b) v) (
    rw (reverse-ends a mid b)
      (lstrip-word (reverse b) (reverse mid ++ reverse a) (reverse-IsWord b w)))

pub strip-word : (a : Text) → IsWord a → strip a ≡ a
strip-word a w = strip-fixed a (lstrip-alone a w) (lstrip-alone (reverse a) (reverse-IsWord a w))
  where
    lstrip-alone : (t : Text) → IsWord t → lstrip t ≡ t
    lstrip-alone [] w = absurd (w.not_nil refl)
    lstrip-alone (c ∷ t) w = lstrip-solid c t w.solid.0

first_word-solid : (a : Text) → All (λ c. is_space c ≡ false) a → first_word a ≡ a
unfolding first_word
first_word-solid [] h = refl
first_word-solid (c ∷ a) h = rw h.0 (ap (c ∷◌) (first_word-solid a h.1))

-- A channel's name is a word.
pub channel_name-word : (a : Text) → IsWord a → channel_name (strip a) ≡ a
unfolding channel_name
channel_name-word [] w = absurd (w.not_nil refl)
channel_name-word (c ∷ a) w = rw (strip-word (c ∷ a) w) (first_word-solid (c ∷ a) w.solid)

to_none : (c : ℕ) (t : Text) → is_space c ≡ false → after_prefix (codes " to=") (c ∷ t) ≡ none
unfolding after_prefix is_space
to_none c t h = ground arith

pub after_to-word : (a : Text) → All (λ c. is_space c ≡ false) a → after_to a ≡ none
unfolding after_to
after_to-word [] w = refl
after_to-word (c ∷ a) w = rw (to_none c a w.0, after_to) (after_to-word a w.1)

pub after_to-header :
    (a b : Text) → All (λ c. is_space c ≡ false) a → after_to (a ++ (codes " to=" ++ b)) ≡ some b
unfolding after_to after_prefix
after_to-header [] b w = refl
after_to-header (c ∷ a) b w =
    rw (to_none c (a ++ (codes " to=" ++ b)) w.0, after_to) (after_to-header a b w.1)

strip_after :
    (role b : Text)
    → IsWord role
    → IsWord b
    → strip_some (after_to (strip (role ++ (codes " to=" ++ b)))) ≡ some b
unfolding strip_some
strip_after role b v w =
    rw (strip-ends role (codes " to=") b v w, after_to-header role b v.solid)
      (ap some (strip-word b w))

-- What apply_header reads in a header that names a role, or a role and a recipient.
pub read-header_of :
    (role : Text) (r : Option Text)
    → IsWord role
    → All (λ c. is_space c ≡ false) (or_nil r)
    → strip_some (after_to (strip (header_of role r))) ≡ named r
unfolding header_of strip_some or_nil named
read-header_of role none v h = rw (strip-word role v, after_to-word role v.solid) refl
read-header_of role (some []) v h = rw (strip-word role v, after_to-word role v.solid) refl
read-header_of role (some (c ∷ t)) v h =
    strip_after role (c ∷ t) v (record { not_nil = λ e. cc e; solid = h })
