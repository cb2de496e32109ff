-- ===== src/Identity/Context.antt =====
-- gateway/identity.py: the context of a request, which the handlers share, and the configured names of the API keys. The context of
-- code outside a request, _EMPTY, is `none`; the random id of a request is an input.
pub mod Label
pub mod Naming
use dmr.Prelude.{
  ℕ, Bool, true, false, ◌||◌, Option, none, some, List, [], ◌∷◌, ◌++◌, ◌==◌, Text, codes, text_eq,
  has_prefix, strip, if◌then◌else◌,
}
use dmr.Prelude.{put, partition}
use dmr.Forensics.Report.{split}
use dmr.Identity.{Headers, take, before, or_text, is_empty}

pub record Context : Type 0 where
  pub rid : Text
  pub harness : Text
  pub agent : Text
  pub session : Text
  pub client_ip : Text
  pub model : Text
  pub profile : Text

-- new_request_context
unfoldable pub new_request_context : Text → Text → Text → Option Context
new_request_context rid h ip = some (record {
  rid = rid;
  harness = h;
  agent = h;
  session = [];
  client_ip = ip;
  model = [];
  profile = [];
})

unfoldable pub text_or_empty : Option Text → Text
text_or_empty none = []
text_or_empty (some t) = t

unfoldable pub note_session : Text → Context → Context
unfolding take strip
note_session [] ctx = ctx
note_session (c ∷ t) ctx = record ctx { session = take 32 (strip (c ∷ t)) }

-- The label for a harness without its fingerprint and the name of an agent.
unfoldable pub composed : Text → Text → Text
unfolding text_eq has_prefix is_empty
composed h a =
    if is_empty h || text_eq h a || has_prefix (codes "ip:") h || has_prefix (codes "key:") h
    then a
    else h ++ (codes "/" ++ a)

unfoldable pub note_agent : Text → Context → Context
unfolding composed before
note_agent [] ctx = ctx
note_agent (c ∷ t) ctx = record ctx { agent = composed (before b'~' ctx.harness) (c ∷ t) }

-- set_agent
unfoldable pub set_agent : Option Text → Option Text → Option Context → Option Context
unfolding note_session note_agent take strip text_or_empty
set_agent a s none = none
set_agent a s (some ctx) =
    some (note_agent (take 48 (strip (text_or_empty a))) (note_session (text_or_empty s) ctx))

unfoldable pub note_model : Text → Context → Context
unfolding take
note_model [] ctx = ctx
note_model (c ∷ t) ctx = record ctx { model = take 64 (c ∷ t) }

unfoldable pub note_profile : Text → Context → Context
unfolding take
note_profile [] ctx = ctx
note_profile (c ∷ t) ctx = record ctx { profile = take 32 (c ∷ t) }

-- set_model
unfoldable pub set_model : Option Text → Option Text → Option Context → Option Context
unfolding note_model note_profile text_or_empty
set_model m p none = none
set_model m p (some ctx) = some (note_profile (text_or_empty p) (note_model (text_or_empty m) ctx))

unfoldable pub current_agent : Option Context → Text
current_agent none = codes "-"
current_agent (some ctx) = ctx.agent

unfoldable pub current_model : Option Context → Text
current_model none = []
current_model (some ctx) = ctx.model

-- rid and agent of RequestContextFilter.filter.
unfoldable pub log_fields : Option Context → Text × Text
log_fields none = (codes "-", codes "-")
log_fields (some ctx) = (ctx.rid, ctx.agent)

unfoldable pub put_named : Text → Text → Headers → Headers
unfolding put
put_named [] name mapping = mapping
put_named (c ∷ k) [] mapping = mapping
put_named (c ∷ k) (d ∷ name) mapping = put (c ∷ k) (d ∷ name) mapping

unfoldable pub add_entry : Option (Text × Text) → Headers → Headers
unfolding put_named strip
add_entry none mapping = mapping
add_entry (some (k, name)) mapping = put_named (strip k) (strip name) mapping

unfoldable pub add_entries : List Text → Headers → Headers
unfolding add_entry partition strip
add_entries [] mapping = mapping
add_entries (e ∷ es) mapping = add_entries es (add_entry (partition b':' (strip e)) mapping)

-- _parse_agent_keys
unfoldable pub parse_agent_keys : Text → Headers
unfolding add_entries split
parse_agent_keys raw = add_entries (split raw) []
