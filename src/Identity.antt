-- ===== src/Identity.antt =====
-- gateway/identity.py: the label of a caller. Header names are matched as they stand; the fingerprint of a key is a parameter.
pub mod Context
pub mod Labels
mod Tests
use dmr.Prelude.{
  ℕ, zero, suc, ◌+◌, Bool, true, false, not, ◌||◌, Option, none, some, List, [], ◌∷◌, ◌++◌, ◌==◌,
  Text, codes, text_eq, has_prefix, is_space, lstrip, strip, lower, if◌then◌else◌,
}

abbrev pub Headers : Type 0
Headers = List (Text × Text)

-- headers.get(name)
unfoldable pub header : Text → Headers → Option Text
unfolding text_eq
header n [] = none
header n ((k, v) ∷ kvs) = if text_eq k n then some v else header n kvs

-- `headers.get(name, "")`
unfoldable pub header_or_empty : Text → Headers → Text
unfolding header
header_or_empty n hs = elim (header n hs) [ none ↦ [] | some v ↦ v ]

-- t[:n]
unfoldable pub take : ℕ → Text → Text
take zero t = []
take (suc n) [] = []
take (suc n) (c ∷ t) = c ∷ take n t

-- t[n:]
unfoldable pub drop : ℕ → Text → Text
drop zero t = t
drop (suc n) [] = []
drop (suc n) (c ∷ t) = drop n t

-- t.split(sep)[0]
unfoldable pub before : ℕ → Text → Text
before sep [] = []
before sep (c ∷ t) = if c == sep then [] else c ∷ before sep t

unfoldable pub word : Text → Text
unfolding is_space
word [] = []
word (c ∷ t) = if is_space c then [] else c ∷ word t

unfoldable pub word_of : Text → Option Text
unfolding word
word_of [] = none
word_of (c ∷ t) = some (word (c ∷ t))

-- t.split()[0]; `none` is the IndexError of a blank text.
unfoldable pub first_word : Text → Option Text
unfolding word_of lstrip
first_word t = word_of (lstrip t)

unfoldable pub shortened : ℕ → Option Text → Option Text
unfolding take
shortened n none = none
shortened n (some t) = some (take n t)

unfoldable pub product_of : Text → Option Text
unfolding first_word before shortened
product_of [] = some []
product_of (c ∷ t) = shortened 32 (first_word (before b'/' (c ∷ t)))

-- product_token, of a text that may be empty; `none` if it raises.
unfoldable pub product_token : Text → Option Text
unfolding product_of strip
product_token ua = product_of (strip ua)

-- `a or b`
unfoldable pub or_text : Text → Text → Text
or_text [] b = b
or_text (c ∷ t) b = c ∷ t

unfoldable pub is_empty : Text → Bool
is_empty [] = true
is_empty (c ∷ t) = false

unfoldable pub bearer : Text → Text
unfolding text_eq lower take drop strip
bearer auth = if text_eq (lower (take 7 auth)) (codes "bearer ") then strip (drop 7 auth) else []

-- The API key, if one is sent.
unfoldable pub token_of : Headers → Text
unfolding or_text bearer header_or_empty strip
token_of hs =
    or_text (bearer (header_or_empty (codes "authorization") hs))
      (strip (header_or_empty (codes "x-api-key") hs))

unfoldable pub explicit_of : Headers → Text
unfolding or_text header_or_empty
explicit_of hs =
    or_text (header_or_empty (codes "x-agent-id") hs) (header_or_empty (codes "x-agent-name") hs)

-- The label of a key that no name is configured for; `digest` is the fingerprint without "key:".
unfoldable pub key_label : Text → Option Text → Option Text
key_label digest none = none
key_label digest (some []) = some (codes "key:" ++ digest)
key_label digest (some (c ∷ t)) = some ((c ∷ t) ++ (codes "~" ++ digest))

-- Without a name and a key.
unfoldable pub anonymous : Headers → Text → Text
unfolding header_or_empty take strip is_empty
anonymous hs ip =
    if not (is_empty (header_or_empty (codes "x-title") hs))
    then take 64 (strip (header_or_empty (codes "x-title") hs))
    else (if not (is_empty (header_or_empty (codes "user-agent") hs))
        then take 64 (strip (header_or_empty (codes "user-agent") hs))
        else codes "ip:" ++ ip)

-- identify, for AGENT_API_KEYS and the hash; `none` if it raises.
unfoldable pub identify : Headers → (Text → Text) → Headers → Text → Option Text
unfolding explicit_of token_of header_or_empty product_token key_label anonymous is_empty take strip
identify keys digest hs ip =
    if not (is_empty (explicit_of hs))
    then some (take 64 (strip (explicit_of hs)))
    else (if is_empty (token_of hs)
        then some (anonymous hs ip)
        else (if not (is_empty (header_or_empty (token_of hs) keys))
            then some (header_or_empty (token_of hs) keys)
            else key_label (digest (token_of hs))
                (product_token (header_or_empty (codes "user-agent") hs))))

-- client_ip
unfoldable pub client_ip : Headers → Option Text → Text
unfolding header_or_empty strip before or_text is_empty
client_ip hs peer =
    if not (is_empty (header_or_empty (codes "x-forwarded-for") hs))
    then strip (before b',' (header_or_empty (codes "x-forwarded-for") hs))
    else (elim peer [ none ↦ codes "-" | some p ↦ or_text p (codes "-") ])
