-- ===== src/Buffer/Prefix.antt =====
-- gateway/request_buffer.py, class RadixPrefixCache: the least-recently-used cache of system
-- prefixes. The OrderedDict is a list, last item first. `sha` stands for
-- `hashlib.sha256(text.encode()).hexdigest()[:16]`, and `now` for the clock.
pub mod Recency
use dmr.Prelude.{
  ℕ, zero, suc, ◌+◌, ◌*◌, String, ◌≡◌, Bool, true, false, ◌&&◌, not, Option, none, some, List, [],
  ◌∷◌, ◌++◌, ltb, leb, if◌then◌else◌, length, str_eq, Text, is_space,
}

pub record CachedPrefix : Type 0 where
  pub prefix_hash : String
  pub prefix_text : Text
  pub token_count_estimate : ℕ
  pub last_used : ℕ
  pub hit_count : ℕ

pub record Cache : Type 0 where
  pub entries : List (String × CachedPrefix)
  pub max_entries : ℕ

-- msg.get("content", ""): a text, or a value of another type.
pub data Content : Type 0 where
  text : Text → Content
  other : Content

pub record Message : Type 0 where
  pub role : Option String
  pub content : Option Content

pub is_system : Message → Bool
is_system m = elim m.role [ none ↦ false | some r ↦ str_eq r "system" ]

-- system_parts.append(content), if it is a text.
pub add_content : Option Content → List Text → List Text
add_content none parts = [] ∷ parts
add_content (some (text t)) parts = t ∷ parts
add_content (some other) parts = parts

-- The system messages that the conversation begins with.
pub system_parts : List Message → List Text
unfolding is_system add_content
system_parts [] = []
system_parts (m ∷ ms) =
    let rest = system_parts ms in if is_system m then add_content m.content rest else []

-- "\n".join(parts)
pub join_lines : List Text → Text
join_lines [] = []
join_lines (t ∷ []) = t
join_lines (t ∷ u ∷ ts) = t ++ 10 ∷ join_lines (u ∷ ts)

-- len(text.split()), given whether the character before was part of a word.
pub count_words : Bool → Text → ℕ
unfolding is_space
count_words inside [] = 0
count_words inside (c ∷ t) =
    let space = is_space c in
    let rest = count_words (not space) t in if not space && not inside then suc rest else rest

pub take_text : ℕ → Text → Text
take_text zero t = []
take_text (suc n) [] = []
take_text (suc n) (c ∷ t) = c ∷ take_text n t

pub lookup : String → List (String × CachedPrefix) → Option CachedPrefix
lookup h [] = none
lookup h ((k, e) ∷ es) = if str_eq k h then some e else lookup h es

pub remove : String → List (String × CachedPrefix) → List (String × CachedPrefix)
remove h [] = []
remove h ((k, e) ∷ es) = if str_eq k h then es else (k, e) ∷ remove h es

-- popitem(last=False); `none` is the KeyError of an empty dictionary.
pub pop_oldest : List (String × CachedPrefix) → Option (List (String × CachedPrefix))
pop_oldest [] = none
pop_oldest (e ∷ []) = some []
pop_oldest (e ∷ f ∷ es) = elim (pop_oldest (f ∷ es)) [ some rest ↦ some (e ∷ rest) | none ↦ none ]

pub new_entry : String → Text → ℕ → CachedPrefix
unfolding take_text count_words
new_entry h combined now = record {
  prefix_hash = h;
  prefix_text = take_text 200 combined;
  token_count_estimate = count_words false combined * 2;
  last_used = now;
  hit_count = 0;
}

pub with_entry : String → CachedPrefix → Cache → List (String × CachedPrefix) → Cache
with_entry h e c es = record c { entries = (h, e) ∷ es }

pub insert_new : String → CachedPrefix → Cache → Option Cache
unfolding with_entry
insert_new h e c =
    if leb c.max_entries (length c.entries)
    then (elim (pop_oldest c.entries) [ some es ↦ some (with_entry h e c es) | none ↦ none ])
    else some (with_entry h e c c.entries)

-- The part of get_prefix_hash below "Register in cache".
pub register : String → Text → ℕ → Cache → Option Cache
unfolding with_entry
register h combined now c = elim (lookup h c.entries) [
  | none ↦ insert_new h (new_entry h combined now) c
  | some e ↦ some (
      with_entry h (record e { hit_count = e.hit_count + 1; last_used = now }) c
        (remove h c.entries))
]

pub no_text : List Text → Bool
no_text [] = true
no_text (t ∷ ts) = false

-- get_prefix_hash: the hash and the cache, or `none` for the KeyError.
pub get_prefix_hash : (Text → String) → List Message → ℕ → Cache → Option (String × Cache)
unfolding no_text
get_prefix_hash sha messages now c =
    let parts = system_parts messages in
    let combined = join_lines parts in
    if no_text parts then some ("", c) else (elim (register (sha combined) combined now c) [
      | some d ↦ some (sha combined, d)
      | none ↦ none
    ])
