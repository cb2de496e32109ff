-- ===== src/Harmony/Steps.antt =====
-- The tokens of one message, and what StreamableParser of harmony_stub/openai_harmony/__init__.py makes of each.
use dmr.Prelude.{
  ℕ, ◌≡◌, refl, sym, ap, ◌∙◌, false, Option, none, some, List, [], ◌∷◌, ◌++◌, Text, codes, is_space,
  strip, All,
}
use mathlib.Core.Path.{subst}
use mathlib.Core.List.{append_assoc, append-nil}
use dmr.Harmony.{start, channel, message, end, id_of, special_of, Encoding, or_nil, or_text}
use dmr.Harmony.Parser.{
  Mode, in_header, in_channel, in_content, Parsed, Parser, process, process_all, on_bytes,
  on_special, on_text, apply_header, take_channel, set_channel, with_recipient, with_channel,
  with_content, flushed, channel_name, strip_some, after_to, on_start, on_channel, on_message,
  on_end,
}
use dmr.Harmony.Split.{spelled}
use dmr.Harmony.Words.{channel_name-word}

-- The tokens are text tokens, and these are their bytes.
abbrev pub Spells : Encoding → List ℕ → List ℕ → Type 0
Spells enc [] bs = bs ≡ []
Spells enc (id ∷ ids) bs =
    (b : List ℕ) × (r : List ℕ) × (special_of id ≡ none)
    × (enc.bytes_of id ≡ some b)
    × Spells enc ids r
    × (bs ≡ b ++ r)

-- The bytes of all the tokens are the text's.
abbrev pub IsRead : Encoding → Text → Type 0
IsRead enc t = (bs : List ℕ) × Spells enc (spelled enc t) bs × (enc.decode bs ≡ t)

-- The tokens are text tokens, and the texts they decode to one by one make up the text.
abbrev pub Streams : Encoding → List ℕ → Text → Type 0
Streams enc [] t = t ≡ []
Streams enc (id ∷ ids) t =
    (b : List ℕ) × (r : Text) × (special_of id ≡ none)
    × (enc.bytes_of id ≡ some b)
    × Streams enc ids r
    × (t ≡ enc.decode b ++ r)

pub record InHeader (p : Parser) (ms : List Parsed) (bs : List ℕ) : Type 0 where
  pub mode : p.mode ≡ in_header
  pub messages : p.messages ≡ ms
  pub header_bytes : p.header_bytes ≡ bs
  pub channel_bytes : p.channel_bytes ≡ []
  pub current : p.current ≡ some (record { channel = none; recipient = none; content = [] })

pub record InChannel (p : Parser) (ms : List Parsed) (r : Option Text) (bs : List ℕ) : Type 0 where
  pub mode : p.mode ≡ in_channel
  pub messages : p.messages ≡ ms
  pub channel_bytes : p.channel_bytes ≡ bs
  pub current : p.current ≡ some (record { channel = none; recipient = r; content = [] })

pub record InContent (p : Parser) (ms : List Parsed) (x : Parsed) : Type 0 where
  pub mode : p.mode ≡ in_content
  pub messages : p.messages ≡ ms
  pub current : p.current ≡ some x

-- No message is open.
pub record Between (p : Parser) (ms : List Parsed) : Type 0 where
  pub messages : p.messages ≡ ms
  pub current : p.current ≡ none

process-text :
    (enc : Encoding) (id : ℕ) (b : List ℕ) (m : Mode) (p : Parser)
    → special_of id ≡ none
    → enc.bytes_of id ≡ some b
    → p.mode ≡ m
    → process enc id p ≡ on_bytes enc b m p
unfolding process on_text
process-text enc id b m p h k e = rw (h, k, e, process, on_text) refl

pub process-start :
    (enc : Encoding) (p : Parser) (ms : List Parsed)
    → Between p ms
    → InHeader (process enc (id_of start) p) ms []
unfolding process special_of id_of on_special on_start flushed
process-start enc p ms h = record {
  mode = refl;
  messages = rw (h.current) h.messages;
  header_bytes = refl;
  channel_bytes = refl;
  current = refl;
}

pub run-header :
    (enc : Encoding) (ids : List ℕ) (p : Parser) (ms : List Parsed) (done bs : List ℕ)
    → Spells enc ids bs
    → InHeader p ms done
    → InHeader (process_all enc ids p) ms (done ++ bs)
unfolding process_all on_bytes
run-header enc [] p ms done bs e h = rw (e, append-nil done) h
run-header enc (id ∷ ids) p ms done bs (b, r, s, k, z, e) h =
    rw (e, sym (append_assoc done b r), process-text enc id b in_header p s k h.mode)
      (run-header enc ids (on_bytes enc b in_header p) ms (done ++ b) r z (record {
        mode = h.mode;
        messages = h.messages;
        header_bytes = ap (◌++ b) h.header_bytes;
        channel_bytes = h.channel_bytes;
        current = h.current;
      }))

pub run-channel :
    (enc : Encoding) (ids : List ℕ) (p : Parser) (ms : List Parsed) (x : Option Text)
    (done bs : List ℕ)
    → Spells enc ids bs
    → InChannel p ms x done
    → InChannel (process_all enc ids p) ms x (done ++ bs)
unfolding process_all on_bytes
run-channel enc [] p ms x done bs e h = rw (e, append-nil done) h
run-channel enc (id ∷ ids) p ms x done bs (b, r, s, k, z, e) h =
    rw (e, sym (append_assoc done b r), process-text enc id b in_channel p s k h.mode)
      (run-channel enc ids (on_bytes enc b in_channel p) ms x (done ++ b) r z (record {
        mode = h.mode;
        messages = h.messages;
        channel_bytes = ap (◌++ b) h.channel_bytes;
        current = h.current;
      }))

abbrev more : Parsed → Text → Parsed
more x t = record x { content = x.content ++ t }

pub run-content :
    (enc : Encoding) (ids : List ℕ) (p : Parser) (ms : List Parsed) (x : Parsed) (t : Text)
    → Streams enc ids t
    → InContent p ms x
    → InContent (process_all enc ids p) ms (more x t)
unfolding process_all on_bytes with_content
run-content enc [] p ms x t e h = rw (e, append-nil x.content) h
run-content enc (id ∷ ids) p ms x t (b, r, s, k, z, e) h =
    rw
      (
        e,
        sym (append_assoc x.content (enc.decode b) r),
        process-text enc id b in_content p s k h.mode,
      )
      (run-content enc ids (on_bytes enc b in_content p) ms (more x (enc.decode b)) r z (record {
        mode = h.mode;
        messages = h.messages;
        current = ap (with_content (enc.decode b)) h.current;
      }))

pub process-end :
    (enc : Encoding) (p : Parser) (ms : List Parsed) (x : Parsed)
    → InContent p ms x
    → Between (process enc (id_of end) p) (ms ++ x ∷ [])
unfolding process special_of id_of on_special on_end flushed
process-end enc p ms x h = record { messages = rw (h.current, h.messages) refl; current = refl }

-- What the header's bytes say of the recipient.
abbrev pub recipient_in : Encoding → List ℕ → Option Text
recipient_in enc bs = strip_some (after_to (strip (enc.decode bs)))

process-channel :
    (enc : Encoding) (p : Parser) (ms : List Parsed) (bs : List ℕ)
    → InHeader p ms bs
    → InChannel (process enc (id_of channel) p) ms (recipient_in enc bs) []
unfolding process special_of id_of on_special on_channel apply_header with_recipient
process-channel enc p ms bs h =
    rw (h.mode, on_channel)
      (record {
        mode = refl;
        messages = h.messages;
        channel_bytes = h.channel_bytes;
        current = rw (h.current, h.header_bytes) refl;
      })

message-header :
    (enc : Encoding) (p : Parser) (ms : List Parsed) (bs : List ℕ)
    → InHeader p ms bs
    → InContent
        (process enc (id_of message) p)
        ms
        (record { channel = some (codes "final"); recipient = recipient_in enc bs; content = [] })
unfolding process special_of id_of on_special on_message take_channel set_channel apply_header
    with_recipient with_channel
message-header enc p ms bs h =
    rw (h.mode, take_channel)
      (record { mode = refl; messages = h.messages; current = rw (h.current, h.header_bytes) refl })

message-channel :
    (enc : Encoding) (p : Parser) (ms : List Parsed) (r : Option Text) (bs : List ℕ)
    → InChannel p ms r bs
    → InContent (process enc (id_of message) p) ms (record {
      channel = some (channel_name (strip (enc.decode bs)));
      recipient = r;
      content = [];
    })
unfolding process special_of id_of on_special on_message take_channel set_channel with_channel
message-channel enc p ms r bs h =
    rw (h.mode, take_channel)
      (record {
        mode = refl;
        messages = h.messages;
        current = rw (h.current, h.channel_bytes) refl;
      })

pub process_all-append :
    (enc : Encoding) (xs ys : List ℕ) (p : Parser)
    → process_all enc (xs ++ ys) p ≡ process_all enc ys (process_all enc xs p)
unfolding process_all
process_all-append enc [] ys p = refl
process_all-append enc (x ∷ xs) ys p = process_all-append enc xs ys (process enc x p)

abbrev pub channel_tokens : Encoding → Option Text → List ℕ
channel_tokens enc none = []
channel_tokens enc (some []) = []
channel_tokens enc (some (c ∷ t)) = id_of channel ∷ spelled enc (c ∷ t)

-- A header is closed by the channel, if there is one, and <|message|>.
pub close-header :
    (enc : Encoding) (ch : Option Text) (p : Parser) (ms : List Parsed) (bs : List ℕ)
    → All (λ c. is_space c ≡ false) (or_nil ch)
    → IsRead enc (or_nil ch)
    → InHeader p ms bs
    → InContent
        (process enc (id_of message) (process_all enc (channel_tokens enc ch) p))
        ms
        (record {
          channel = some (or_text (codes "final") ch);
          recipient = recipient_in enc bs;
          content = [];
        })
unfolding process_all or_nil or_text
close-header enc none p ms bs s d h = message-header enc p ms bs h
close-header enc (some []) p ms bs s d h = message-header enc p ms bs h
close-header enc (some (c ∷ t)) p ms bs s (ds, z, e) h =
    subst
      (λ n.
        InContent
          (process enc (id_of message) (process_all enc (channel_tokens enc (some (c ∷ t))) p)) ms
          (record { channel = some n; recipient = recipient_in enc bs; content = [] }))
      (ap (λ u. channel_name (strip u)) e
        ∙ channel_name-word (c ∷ t) (record { not_nil = λ q. cc q; solid = s }))
      (message-channel enc (process_all enc (spelled enc (c ∷ t)) (process enc (id_of channel) p))
        ms (recipient_in enc bs) ds
        (run-channel enc (spelled enc (c ∷ t)) (process enc (id_of channel) p) ms
          (recipient_in enc bs) [] ds z (process-channel enc p ms bs h)))
