-- ===== src/Harmony.antt =====
-- harmony_stub/openai_harmony/__init__.py: messages, their wire format, and its tokens.
-- The tokenizer of tiktoken and the UTF-8 codec are outside: they are the fields of Encoding.
pub mod Split
pub mod Parser
pub mod Words
pub mod Steps
pub mod RoundTrip
mod Tests
use dmr.Prelude.{
  ℕ, zero, suc, ◌-◌, Bool, true, false, ◌&&◌, Option, none, some, List, [], ◌∷◌, ◌++◌, ◌==◌,
  if◌then◌else◌, length, Text, codes,
}

-- SPECIAL_IDS
pub data Special : Type 0 where
  start_of_text end_of_text return constrain channel start end message call end_of_prompt : Special

unfoldable pub id_of : Special → ℕ
id_of start_of_text = 199998
id_of end_of_text = 199999
id_of return = 200002
id_of constrain = 200003
id_of channel = 200005
id_of start = 200006
id_of end = 200007
id_of message = 200008
id_of call = 200012
id_of end_of_prompt = 200018

unfoldable pub name_of : Special → Text
name_of start_of_text = codes "<|startoftext|>"
name_of end_of_text = codes "<|endoftext|>"
name_of return = codes "<|return|>"
name_of constrain = codes "<|constrain|>"
name_of channel = codes "<|channel|>"
name_of start = codes "<|start|>"
name_of end = codes "<|end|>"
name_of message = codes "<|message|>"
name_of call = codes "<|call|>"
name_of end_of_prompt = codes "<|endofprompt|>"

-- SPECIAL_IDS.get(token_id)
unfoldable pub special_of : ℕ → Option Special
special_of n =
    if n == 199998
    then some start_of_text
    else (if n == 199999
        then some end_of_text
        else (if n == 200002
            then some return
            else (if n == 200003
                then some constrain
                else (if n == 200005
                    then some channel
                    else (if n == 200006
                        then some start
                        else (if n == 200007
                            then some end
                            else (if n == 200008
                                then some message
                                else (if n == 200012
                                    then some call
                                    else (if n == 200018 then some end_of_prompt else none)))))))))

-- sorted(SPECIAL_NAMES, key=len, reverse=True)
abbrev pub by_length : List Special
by_length =
    start_of_text ∷ end_of_prompt ∷ end_of_text ∷ constrain ∷ channel ∷ message ∷ return ∷ start
    ∷ call ∷ end ∷ []

-- enc.encode, enc.decode_single_token_bytes (`none` where it raises), bytes.decode("utf-8", "replace").
pub record Encoding : Type 0 where
  pub encode : Text → List ℕ
  pub bytes_of : ℕ → Option (List ℕ)
  pub decode : List ℕ → Text

-- The entries of Message.content: what has a `text`, a `str`, nested lists, or anything else.
mutual
  pub data Content : Type 0 where
    with_text : Option Text → Content
    str : Text → Content
    many : Contents → Content
    other : Content

  pub data Contents : Type 0 where
    nil : Contents
    cons : Content → Contents → Contents

pub record Message : Type 0 where
  pub role : Option Text
  pub content : Contents
  pub recipient : Option Text
  pub channel : Option Text

-- `s or ""`
unfoldable pub or_nil : Option Text → Text
or_nil none = []
or_nil (some t) = t

-- `s or default`, where an empty text counts as none.
unfoldable pub or_text : Text → Option Text → Text
or_text d none = d
or_text d (some []) = d
or_text d (some (c ∷ t)) = c ∷ t

-- _content_to_str
unfoldable mutual
  pub content_to_str : Content → Text
  content_to_str (with_text t) = or_nil t
  content_to_str (str t) = t
  content_to_str (many cs) = contents_to_str cs
  content_to_str other = []

  pub contents_to_str : Contents → Text
  contents_to_str nil = []
  contents_to_str (cons c cs) = content_to_str c ++ contents_to_str cs

-- f"{role} to={recipient}" if recipient else role
unfoldable pub header_of : Text → Option Text → Text
header_of role none = role
header_of role (some []) = role
header_of role (some (c ∷ t)) = role ++ (codes " to=" ++ (c ∷ t))

unfoldable pub channel_part : Option Text → Text
unfolding name_of
channel_part none = []
channel_part (some []) = []
channel_part (some (c ∷ t)) = name_of channel ++ (c ∷ t)

unfoldable pub render_message : Message → Text
unfolding or_text contents_to_str header_of channel_part name_of
render_message m =
    name_of start
    ++ (header_of (or_text (codes "user") m.role) m.recipient
        ++ (channel_part m.channel
            ++ (name_of message ++ (contents_to_str m.content ++ name_of end))))

-- _render_messages_to_string
unfoldable pub render_messages : List Message → Text
render_messages [] = []
render_messages (m ∷ ms) = render_message m ++ render_messages ms

-- s, if t begins with it: what comes after.
unfoldable pub after_prefix : Text → Text → Option Text
after_prefix [] t = some t
after_prefix (c ∷ s) [] = none
after_prefix (c ∷ s) (d ∷ t) = if c == d then after_prefix s t else none

-- The first of the names that the text begins with.
unfoldable pub match_at : List Special → Text → Option Special
unfolding after_prefix name_of
match_at [] t = none
match_at (s ∷ ss) t = elim (after_prefix (name_of s) t) [
  | some rest ↦ some s
  | none ↦ match_at ss t
]

-- The parts of re.split that are not empty.
pub data Piece : Type 0 where
  mark : Special → Piece
  plain : Text → Piece

unfoldable pub push : ℕ → List Piece → List Piece
push c (plain p ∷ ps) = plain (c ∷ p) ∷ ps
push c ps = plain (c ∷ []) ∷ ps

-- re.split on the special names; the first argument counts characters of the last match to skip.
unfoldable pub pieces : ℕ → Text → List Piece
unfolding match_at name_of push
pieces skip [] = []
pieces (suc k) (c ∷ t) = pieces k t
pieces zero (c ∷ t) = elim (match_at by_length (c ∷ t)) [
  | some s ↦ mark s ∷ pieces (length (name_of s) - 1) t
  | none ↦ push c (pieces zero t)
]

unfoldable pub tokens_of : Encoding → List Piece → List ℕ
unfolding id_of
tokens_of enc [] = []
tokens_of enc (mark s ∷ ps) = id_of s ∷ tokens_of enc ps
tokens_of enc (plain t ∷ ps) = enc.encode t ++ tokens_of enc ps

-- _tokenize_harmony_string
unfoldable pub tokenize : Encoding → Text → List ℕ
unfolding tokens_of pieces
tokenize enc t = tokens_of enc (pieces zero t)

-- HarmonyEncoding.render_conversation_for_completion
unfoldable pub render_conversation : Encoding → List Message → List ℕ
unfolding tokenize render_messages name_of
render_conversation enc ms =
    tokenize enc (render_messages ms ++ (name_of start ++ codes "assistant"))
