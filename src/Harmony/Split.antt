-- ===== src/Harmony/Split.antt =====
-- How harmony_stub/openai_harmony/__init__.py splits a text at its special names.
use dmr.Prelude.{
  ℕ, zero, ◌≡◌, refl, ap, ◌∙◌, ◌⊎◌, inl, inr, false, none, List, [], ◌∷◌, ◌++◌, Text, codes,
  has_prefix, is_infix, arith,
}
use dmr.Harmony.{
  Special, start_of_text, end_of_text, return, constrain, channel, start, end, message, call,
  end_of_prompt, id_of, name_of, by_length, Encoding, after_prefix, match_at, Piece, mark, plain,
  push, pieces, tokens_of,
}

abbrev pub opening : Text
opening = codes "<|"

name_of-opening : (s : Special) → (r : Text) × (name_of s ≡ b'<' ∷ b'|' ∷ r)
unfolding name_of
name_of-opening start_of_text = (codes "startoftext|>", refl)
name_of-opening end_of_text = (codes "endoftext|>", refl)
name_of-opening return = (codes "return|>", refl)
name_of-opening constrain = (codes "constrain|>", refl)
name_of-opening channel = (codes "channel|>", refl)
name_of-opening start = (codes "start|>", refl)
name_of-opening end = (codes "end|>", refl)
name_of-opening message = (codes "message|>", refl)
name_of-opening call = (codes "call|>", refl)
name_of-opening end_of_prompt = (codes "endofprompt|>", refl)

after_prefix-none :
    (r t : Text) → has_prefix opening t ≡ false → after_prefix (b'<' ∷ b'|' ∷ r) t ≡ none
unfolding after_prefix has_prefix
after_prefix-none r [] h = refl
after_prefix-none r (c ∷ []) h = ground arith
after_prefix-none r (c ∷ d ∷ t) h = ground arith

match_at-none : (ss : List Special) (t : Text) → has_prefix opening t ≡ false → match_at ss t ≡ none
unfolding match_at
match_at-none [] t h = refl
match_at-none (s ∷ ss) t h =
    let (r, e) = name_of-opening s in
    rw (e, after_prefix-none r t h, match_at) (match_at-none ss t h)

-- A special name at the front is cut off.
pieces-mark : (s : Special) (t : Text) → pieces zero (name_of s ++ t) ≡ mark s ∷ pieces zero t
unfolding pieces name_of match_at after_prefix
pieces-mark start_of_text t = refl
pieces-mark end_of_text t = refl
pieces-mark return t = refl
pieces-mark constrain t = refl
pieces-mark channel t = refl
pieces-mark start t = refl
pieces-mark end t = refl
pieces-mark message t = refl
pieces-mark call t = refl
pieces-mark end_of_prompt t = refl

-- The text ends here, or a special name follows.
abbrev pub Cut : Text → Type 0
Cut rest = (rest ≡ []) ⊎ ((s : Special) × (t : Text) × (rest ≡ name_of s ++ t))

abbrev plain_onto : Text → List Piece → List Piece
plain_onto [] ps = ps
plain_onto (c ∷ x) ps = plain (c ∷ x) ∷ ps

no_opening :
    (c : ℕ) (x rest : Text)
    → is_infix opening (c ∷ x) ≡ false
    → Cut rest
    → has_prefix opening (c ∷ (x ++ rest)) ≡ false
unfolding is_infix has_prefix
no_opening c (d ∷ x) rest h k = ground arith
no_opening c [] rest h (inl e) = rw e (ground arith)
no_opening c [] rest h (inr (s, t, e)) = let (r, n) = name_of-opening s in rw (e, n) (ground arith)

is_infix-tail : (c : ℕ) (x : Text) → is_infix opening (c ∷ x) ≡ false → is_infix opening x ≡ false
unfolding is_infix
is_infix-tail c x h = ground arith

push-Cut :
    (c : ℕ) (rest : Text) → Cut rest → push c (pieces zero rest) ≡ plain (c ∷ []) ∷ pieces zero rest
unfolding push pieces
push-Cut c rest (inl e) = rw e refl
push-Cut c rest (inr (s, t, e)) = rw (e, pieces-mark s t) refl

push-plain_onto :
    (c : ℕ) (x rest : Text)
    → Cut rest
    → push c (plain_onto x (pieces zero rest)) ≡ plain (c ∷ x) ∷ pieces zero rest
unfolding push
push-plain_onto c [] rest k = push-Cut c rest k
push-plain_onto c (d ∷ x) rest k = refl

-- A text without an opening "<|" is left whole.
pieces-plain :
    (x rest : Text)
    → is_infix opening x ≡ false
    → Cut rest
    → pieces zero (x ++ rest) ≡ plain_onto x (pieces zero rest)
unfolding pieces
pieces-plain [] rest h k = refl
pieces-plain (c ∷ x) rest h k =
    rw (match_at-none by_length (c ∷ (x ++ rest)) (no_opening c x rest h k), pieces)
      (ap (push c) (pieces-plain x rest (is_infix-tail c x h) k) ∙ push-plain_onto c x rest k)

-- The tokens of a text between special names.
abbrev pub spelled : Encoding → Text → List ℕ
spelled enc [] = []
spelled enc (c ∷ x) = enc.encode (c ∷ x)

pub tokens_of-mark :
    (enc : Encoding) (s : Special) (t : Text)
    → tokens_of enc (pieces zero (name_of s ++ t)) ≡ id_of s ∷ tokens_of enc (pieces zero t)
unfolding tokens_of
tokens_of-mark enc s t = rw (pieces-mark s t) refl

pub tokens_of-plain :
    (enc : Encoding) (x rest : Text)
    → is_infix opening x ≡ false
    → Cut rest
    → tokens_of enc (pieces zero (x ++ rest)) ≡ spelled enc x ++ tokens_of enc (pieces zero rest)
unfolding tokens_of
tokens_of-plain enc x rest h k = rw (pieces-plain x rest h k) (onto x)
  where
    onto :
        (x : Text)
        → tokens_of enc (plain_onto x (pieces zero rest))
          ≡ spelled enc x ++ tokens_of enc (pieces zero rest)
    onto [] = refl
    onto (c ∷ x) = refl
