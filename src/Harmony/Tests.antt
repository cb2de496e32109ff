-- ===== src/Harmony/Tests.antt =====
-- Conversations to render and to parse.
use dmr.Prelude.{
  ℕ, arith, ltb, if◌then◌else◌, is_infix, ◌≡◌, refl, Bool, true, false, none, some, List, [], ◌∷◌,
  Text, codes, All, is_space,
}
use mathlib.Core.List.{map}
use dmr.Harmony.{
  Encoding, Message, Content, Contents, nil, cons, with_text, str, header_of, or_nil, or_text,
  contents_to_str, render_conversation, special_of,
}
use dmr.Harmony.Parser.{initial, process_all, in_header}
use dmr.Harmony.Words.{IsWord, named}
use dmr.Harmony.Steps.{Spells, IsRead, Streams}
use dmr.Harmony.RoundTrip.{IsReadable, expected, process_all-render_conversation}

-- A token for each character.
abbrev plain_bytes : Encoding
plain_bytes = record { encode = λ t. t; bytes_of = λ n. some (n ∷ []); decode = λ b. b }

abbrev asked : Message
asked = record {
  role = some (codes "user");
  content = cons (with_text (some (codes "2 + 2?"))) nil;
  recipient = none;
  channel = none;
}

abbrev called : Message
called = record {
  role = some (codes "assistant");
  content = cons (str (codes "{}")) nil;
  recipient = some (codes "functions.add");
  channel = some (codes "commentary");
}

abbrev talk : List Message
talk = asked ∷ called ∷ []

-- Every character is below the special ids.
below : Text → Bool
below [] = true
below (c ∷ t) = if ltb c 199998 then below t else false

solid : Text → Bool
unfolding is_space
solid [] = true
solid (c ∷ t) = if is_space c then false else solid t

special_of-below : (c : ℕ) → ltb c 199998 ≡ true → special_of c ≡ none
unfolding special_of
special_of-below c h = ground arith

below-Spells : (t : Text) → below t ≡ true → Spells plain_bytes t t
unfolding below
below-Spells [] h = refl
below-Spells (c ∷ t) h =
    (c ∷ [], t, special_of-below c (ground arith), refl, below-Spells t (ground arith), refl)

below-Streams : (t : Text) → below t ≡ true → Streams plain_bytes t t
unfolding below
below-Streams [] h = refl
below-Streams (c ∷ t) h =
    (c ∷ [], t, special_of-below c (ground arith), refl, below-Streams t (ground arith), refl)

solid-All : (t : Text) → solid t ≡ true → All (λ c. is_space c ≡ false) t
unfolding solid
solid-All [] h = tt
solid-All (c ∷ t) h = (ground arith, solid-All t (ground arith))

below-IsRead : (c : ℕ) (t : Text) → below (c ∷ t) ≡ true → IsRead plain_bytes (c ∷ t)
below-IsRead c t h = (c ∷ t, below-Spells (c ∷ t) h, refl)

word : (c : ℕ) (t : Text) → solid (c ∷ t) ≡ true → IsWord (c ∷ t)
word c t h = record { not_nil = λ e. cc e; solid = solid-All (c ∷ t) h }

asked-IsReadable : IsReadable plain_bytes asked
unfolding or_nil or_text header_of contents_to_str below solid is_infix
asked-IsReadable = record {
  role = word _ _ refl;
  recipient = tt;
  channel_name = tt;
  header_plain = refl;
  channel_plain = refl;
  content_plain = refl;
  header_read = below-IsRead _ _ refl;
  channel_read = ([], refl, refl);
  content_read = below-Streams (contents_to_str asked.content) refl;
}

called-IsReadable : IsReadable plain_bytes called
unfolding or_nil or_text header_of contents_to_str below solid is_infix
called-IsReadable = record {
  role = word _ _ refl;
  recipient = solid-All (or_nil called.recipient) refl;
  channel_name = solid-All (or_nil called.channel) refl;
  header_plain = refl;
  channel_plain = refl;
  content_plain = refl;
  header_read = below-IsRead _ _ refl;
  channel_read = below-IsRead _ _ refl;
  content_read = below-Streams (contents_to_str called.content) refl;
}

talk-IsReadable : All (IsReadable plain_bytes) talk
talk-IsReadable = (asked-IsReadable, (called-IsReadable, tt))

reads_assistant : IsRead plain_bytes (codes "assistant")
unfolding below
reads_assistant = below-IsRead _ _ refl

process_all-render_conversation_example :
    let p = process_all plain_bytes (render_conversation plain_bytes talk) initial in
    (p.messages ≡ map expected talk) × (p.mode ≡ in_header)
process_all-render_conversation_example =
    process_all-render_conversation plain_bytes talk talk-IsReadable reads_assistant

run_talk :
    (process_all plain_bytes (render_conversation plain_bytes talk) initial).messages
    ≡ map expected talk
unfolding process_all render_conversation dmr.Harmony.render_message or_nil named
run_talk = refl
