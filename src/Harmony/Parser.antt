-- ===== src/Harmony/Parser.antt =====
-- harmony_stub/openai_harmony/__init__.py, class StreamableParser: a state machine over tokens.
use dmr.Prelude.{
  ℕ, Option, none, some, List, [], ◌∷◌, ◌++◌, if◌then◌else◌, Text, codes, strip, is_space,
}
use dmr.Harmony.{
  Special, return, channel, start, end, message, call, special_of, Encoding, after_prefix,
}

pub data Mode : Type 0 where
  waiting in_header in_channel in_content : Mode

-- _ParsedMessage
pub record Parsed : Type 0 where
  pub channel : Option Text
  pub recipient : Option Text
  pub content : Text

pub record Parser : Type 0 where
  pub mode : Mode
  pub header_bytes : List ℕ
  pub channel_bytes : List ℕ
  pub last_delta : Text
  pub current_channel : Option Text
  pub current_recipient : Option Text
  pub messages : List Parsed
  pub current : Option Parsed

abbrev pub initial : Parser
initial = record {
  mode = waiting;
  header_bytes = [];
  channel_bytes = [];
  last_delta = [];
  current_channel = none;
  current_recipient = none;
  messages = [];
  current = none;
}

-- What follows the first " to=", if there is one.
unfoldable pub after_to : Text → Option Text
unfolding after_prefix
after_to [] = none
after_to (c ∷ t) = elim (after_prefix (codes " to=") (c ∷ t)) [
  | some r ↦ some r
  | none ↦ after_to t
]

-- text.split()[0], of a text that begins with no white space.
unfoldable pub first_word : Text → Text
unfolding is_space
first_word [] = []
first_word (c ∷ t) = if is_space c then [] else c ∷ first_word t

-- "final", if the channel's text is empty.
unfoldable pub channel_name : Text → Text
unfolding first_word
channel_name [] = codes "final"
channel_name (c ∷ t) = first_word (c ∷ t)

unfoldable pub strip_some : Option Text → Option Text
unfolding strip
strip_some none = none
strip_some (some t) = some (strip t)

unfoldable pub with_recipient : Option Text → Option Parsed → Option Parsed
with_recipient r none = none
with_recipient r (some m) = some (record m { recipient = r })

unfoldable pub with_channel : Text → Option Parsed → Option Parsed
with_channel ch none = none
with_channel ch (some m) = some (record m { channel = some ch })

unfoldable pub with_content : Text → Option Parsed → Option Parsed
with_content t none = none
with_content t (some m) = some (record m { content = m.content ++ t })

-- self.messages, with self._current appended if there is one.
unfoldable pub flushed : Parser → List Parsed
flushed p = elim p.current [ none ↦ p.messages | some m ↦ p.messages ++ m ∷ [] ]

-- _apply_header
unfoldable pub apply_header : Encoding → Parser → Parser
unfolding after_to strip strip_some with_recipient
apply_header enc p =
    let r = strip_some (after_to (strip (enc.decode p.header_bytes))) in
    record p { current_recipient = r; current = with_recipient r p.current }

unfoldable pub on_start : Parser → Parser
unfolding flushed
on_start p = record p {
  messages = flushed p;
  mode = in_header;
  header_bytes = [];
  channel_bytes = [];
  last_delta = [];
  current = some (record { channel = none; recipient = none; content = [] });
}

unfoldable pub on_channel : Encoding → Mode → Parser → Parser
unfolding apply_header
on_channel enc in_header p = record (apply_header enc p) { mode = in_channel; last_delta = [] }
on_channel enc _ p = p

unfoldable pub set_channel : Text → Parser → Parser
unfolding with_channel
set_channel ch p = record p { current_channel = some ch; current = with_channel ch p.current }

unfoldable pub take_channel : Encoding → Mode → Parser → Parser
unfolding set_channel channel_name strip apply_header
take_channel enc in_channel p = set_channel (channel_name (strip (enc.decode p.channel_bytes))) p
take_channel enc in_header p = set_channel (codes "final") (apply_header enc p)
take_channel enc _ p = p

unfoldable pub on_message : Encoding → Parser → Parser
unfolding take_channel
on_message enc p = record (take_channel enc p.mode p) { mode = in_content; last_delta = [] }

unfoldable pub on_end : Parser → Parser
unfolding flushed
on_end p = record p {
  messages = flushed p;
  current = none;
  mode = waiting;
  current_channel = none;
  current_recipient = none;
  last_delta = [];
}

-- A text token, with its bytes.
unfoldable pub on_bytes : Encoding → List ℕ → Mode → Parser → Parser
unfolding with_content
on_bytes enc b in_content p = record p {
  last_delta = enc.decode b;
  current = with_content (enc.decode b) p.current;
}
on_bytes enc b in_header p = record p { header_bytes = p.header_bytes ++ b; last_delta = [] }
on_bytes enc b in_channel p = record p { channel_bytes = p.channel_bytes ++ b; last_delta = [] }
on_bytes enc b waiting p = record p { last_delta = [] }

unfoldable pub on_text : Encoding → Option (List ℕ) → Parser → Parser
unfolding on_bytes
on_text enc none p = record p { last_delta = [] }
on_text enc (some b) p = on_bytes enc b p.mode p

unfoldable pub on_special : Encoding → Special → Parser → Parser
unfolding on_start on_channel on_message on_end
on_special enc start p = on_start p
on_special enc channel p = on_channel enc p.mode p
on_special enc message p = on_message enc p
on_special enc end p = on_end p
on_special enc return p = on_end p
on_special enc call p = on_end p
on_special enc _ p = record p { last_delta = [] }

-- process
unfoldable pub process : Encoding → ℕ → Parser → Parser
unfolding special_of on_special on_text
process enc id p = elim (special_of id) [
  | some s ↦ on_special enc s p
  | none ↦ on_text enc (enc.bytes_of id) p
]

unfoldable pub process_all : Encoding → List ℕ → Parser → Parser
unfolding process
process_all enc [] p = p
process_all enc (id ∷ ids) p = process_all enc ids (process enc id p)
