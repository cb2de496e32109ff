-- ===== src/Harmony/RoundTrip.antt =====
-- What harmony_stub/openai_harmony/__init__.py renders and StreamableParser reads again.
use dmr.Prelude.{
  ℕ, zero, ◌≡◌, refl, sym, ap, ◌∙◌, false, Option, none, some, List, [], ◌∷◌, ◌++◌, Text, codes,
  inr, is_infix, is_space, strip, All,
}
use mathlib.Core.Path.{subst}
use mathlib.Core.List.{map, append_assoc, append-nil}
use dmr.Harmony.{
  name_of, channel_part, render_message, render_messages, render_conversation, tokenize, tokens_of,
  pieces, start, channel, message, end, id_of, Encoding, Message, or_nil, or_text, header_of,
  contents_to_str,
}
use dmr.Harmony.Parser.{
  in_header, Parsed, Parser, initial, process, process_all, strip_some, after_to,
}
use dmr.Harmony.Split.{Cut, tokens_of-mark, tokens_of-plain, spelled, opening}
use dmr.Harmony.Words.{IsWord, named, read-header_of}
use dmr.Harmony.Steps.{
  IsRead, Streams, Between, process-start, run-header, run-content, process-end, recipient_in,
  process_all-append, channel_tokens, close-header,
}

abbrev pub role_of : Message → Text
role_of m = or_text (codes "user") m.role

abbrev pub header : Message → Text
header m = header_of (role_of m) m.recipient

-- Role, recipient and channel are words, no text has an opening of a special name, and the tokens give the texts back.
pub record IsReadable (enc : Encoding) (m : Message) : Type 0 where
  pub role : IsWord (role_of m)
  pub recipient : All (λ c. is_space c ≡ false) (or_nil m.recipient)
  pub channel_name : All (λ c. is_space c ≡ false) (or_nil m.channel)
  pub header_plain : is_infix opening (header m) ≡ false
  pub channel_plain : is_infix opening (or_nil m.channel) ≡ false
  pub content_plain : is_infix opening (contents_to_str m.content) ≡ false
  pub header_read : IsRead enc (header m)
  pub channel_read : IsRead enc (or_nil m.channel)
  pub content_read :
      Streams enc (spelled enc (contents_to_str m.content)) (contents_to_str m.content)

-- What the parser should make of a message.
abbrev pub expected : Message → Parsed
expected m = record {
  channel = some (or_text (codes "final") m.channel);
  recipient = named m.recipient;
  content = contents_to_str m.content;
}

-- The tokens of a message, and others after them.
message_tokens : Encoding → Message → List ℕ → List ℕ
message_tokens enc m rest =
    id_of start
    ∷ (spelled enc (header m)
        ++ (channel_tokens enc m.channel
            ++ (id_of message ∷ (spelled enc (contents_to_str m.content) ++ (id_of end ∷ rest)))))

-- The state the tokens of a message lead to.
after_message : Encoding → Message → Parser → Parser
after_message enc m p =
    let h = process_all enc (spelled enc (header m)) (process enc (id_of start) p) in
    let c = process enc (id_of message) (process_all enc (channel_tokens enc m.channel) h) in
    process enc (id_of end) (process_all enc (spelled enc (contents_to_str m.content)) c)

process_all-message_tokens :
    (enc : Encoding) (m : Message) (rest : List ℕ) (p : Parser)
    → process_all enc (message_tokens enc m rest) p ≡ process_all enc rest (after_message enc m p)
unfolding process_all message_tokens after_message
process_all-message_tokens enc m rest p =
    process_all-append enc (spelled enc (header m)) _ _
    ∙ (process_all-append enc (channel_tokens enc m.channel) _ _
        ∙ process_all-append enc (spelled enc (contents_to_str m.content)) _ _)

after_message-Between :
    (enc : Encoding) (m : Message) (p : Parser) (ms : List Parsed)
    → IsReadable enc m
    → Between p ms
    → Between (after_message enc m p) (ms ++ expected m ∷ [])
unfolding after_message
after_message-Between enc m p ms g h =
    let (bs, z, e) = g.header_read in
    let q = process_all enc (spelled enc (header m)) (process enc (id_of start) p) in
    let in_head =
      run-header enc (spelled enc (header m)) (process enc (id_of start) p) ms [] bs z
        (process-start enc p ms h) in
    let opened = close-header enc m.channel q ms bs g.channel_name g.channel_read in_head in
    let x : Parsed = record {
      channel = some (or_text (codes "final") m.channel);
      recipient = recipient_in enc bs;
      content = [];
    } in
    let closed =
      process-end enc _ ms _ (
        run-content enc (spelled enc (contents_to_str m.content)) _ ms x _ g.content_read opened) in
    subst
      (λ r. Between (after_message enc m p) (
        ms
        ++ record {
          channel = some (or_text (codes "final") m.channel);
          recipient = r;
          content = contents_to_str m.content;
        }
          ∷ []))
      (ap (λ u. strip_some (after_to (strip u))) e
        ∙ read-header_of (role_of m) m.recipient g.role g.recipient)
      closed

render_message-append :
    (m : Message) (rest : Text)
    → render_message m ++ rest
      ≡ name_of start
        ++ (header m
            ++ (channel_part m.channel
                ++ (name_of message ++ (contents_to_str m.content ++ (name_of end ++ rest)))))
unfolding render_message
render_message-append m rest = simp (append_assoc)

channel_part-Cut : (ch : Option Text) (t : Text) → Cut (channel_part ch ++ (name_of message ++ t))
unfolding channel_part
channel_part-Cut none t = inr (message, t, refl)
channel_part-Cut (some []) t = inr (message, t, refl)
channel_part-Cut (some (c ∷ x)) t = inr (
  channel,
  (c ∷ x) ++ (name_of message ++ t),
  append_assoc (name_of channel) (c ∷ x) (name_of message ++ t),
)

tokens_of-channel_part :
    (enc : Encoding) (ch : Option Text) (t : Text)
    → is_infix opening (or_nil ch) ≡ false
    → tokens_of enc (pieces zero (channel_part ch ++ (name_of message ++ t)))
      ≡ channel_tokens enc ch ++ (id_of message ∷ tokens_of enc (pieces zero t))
unfolding channel_part or_nil
tokens_of-channel_part enc none t h = tokens_of-mark enc message t
tokens_of-channel_part enc (some []) t h = tokens_of-mark enc message t
tokens_of-channel_part enc (some (c ∷ x)) t h =
    rw
      (
        append_assoc (name_of channel) (c ∷ x) (name_of message ++ t),
        tokens_of-mark enc channel ((c ∷ x) ++ (name_of message ++ t)),
      )
      (ap (id_of channel ∷◌) (
        tokens_of-plain enc (c ∷ x) (name_of message ++ t) h (inr (message, t, refl))
        ∙ ap (spelled enc (c ∷ x) ++◌) (tokens_of-mark enc message t)))

-- A message is cut into its tokens, whatever is written after it.
tokens_of-render_message :
    (enc : Encoding) (m : Message) (rest : Text)
    → IsReadable enc m
    → tokens_of enc (pieces zero (render_message m ++ rest))
      ≡ message_tokens enc m (tokens_of enc (pieces zero rest))
unfolding message_tokens
tokens_of-render_message enc m rest g =
    let body = contents_to_str m.content in
    let after_head =
      channel_part m.channel ++ (name_of message ++ (body ++ (name_of end ++ rest))) in
    rw
      (
        render_message-append m rest,
        tokens_of-mark enc start (header m ++ after_head),
        tokens_of-plain enc (header m) after_head g.header_plain
            (channel_part-Cut m.channel (body ++ (name_of end ++ rest))),
        tokens_of-channel_part enc m.channel (body ++ (name_of end ++ rest)) g.channel_plain,
        tokens_of-plain enc body (name_of end ++ rest) g.content_plain (inr (end, rest, refl)),
        tokens_of-mark enc end rest,
      )
      refl

run-messages :
    (enc : Encoding) (ms : List Message) (rest : Text) (p : Parser) (done : List Parsed)
    → All (IsReadable enc) ms
    → Between p done
    → (q : Parser) × Between q (done ++ map expected ms)
      × (process_all enc (tokens_of enc (pieces zero (render_messages ms ++ rest))) p
          ≡ process_all enc (tokens_of enc (pieces zero rest)) q)
unfolding render_messages
run-messages enc [] rest p done g h = (p, rw (append-nil done) h, refl)
run-messages enc (m ∷ ms) rest p done g h =
    let (q, k, e) =
      run-messages enc ms rest (after_message enc m p) (done ++ expected m ∷ []) g.1
        (after_message-Between enc m p done g.0 h) in
    (
      q,
      rw (sym (append_assoc done (expected m ∷ []) (map expected ms))) k,
      rw
          (
            append_assoc (render_message m) (render_messages ms) rest,
            tokens_of-render_message enc m (render_messages ms ++ rest) g.0,
          )
          (process_all-message_tokens enc m
              (tokens_of enc (pieces zero (render_messages ms ++ rest))) p
            ∙ e),
    )

trailer :
    (enc : Encoding)
    → tokens_of enc (pieces zero (name_of start ++ codes "assistant"))
      ≡ id_of start ∷ spelled enc (codes "assistant")
unfolding tokens_of pieces
trailer enc =
    tokens_of-mark enc start (codes "assistant")
    ∙ ap (id_of start ∷◌) (append-nil (spelled enc (codes "assistant")))

-- The parser, fed the tokens of a rendered conversation, holds each message with its channel ("final" if it names none),
-- its recipient and its content, in order, and is left in the header of the assistant's message that follows,
-- if the messages are readable and the encoding reads "assistant".
pub process_all-render_conversation :
    (enc : Encoding) (ms : List Message)
    → All (IsReadable enc) ms
    → IsRead enc (codes "assistant")
    → let p = process_all enc (render_conversation enc ms) initial in
      (p.messages ≡ map expected ms) × (p.mode ≡ in_header)
unfolding render_conversation tokenize process_all
process_all-render_conversation enc ms g (bs, z, e) =
    let (q, k, r) =
      run-messages enc ms (name_of start ++ codes "assistant") initial [] g
        (record { messages = refl; current = refl }) in
    let last =
      run-header enc (spelled enc (codes "assistant")) (process enc (id_of start) q)
        (map expected ms) [] bs z (process-start enc q (map expected ms) k) in
    rw (r ∙ ap (λ t. process_all enc t q) (trailer enc)) (last.messages, last.mode)
