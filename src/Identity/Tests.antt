-- ===== src/Identity/Tests.antt =====
-- Callers with and without a name.
use dmr.Prelude.{◌≡◌, refl, ◌&&◌, none, List, some, [], ◌∷◌, Text, codes, has_prefix, strip}
use dmr.Identity.{Headers, identify, header_or_empty}
use dmr.Prelude.{put, partition, onto_key}
use dmr.Identity.Context.{
  new_request_context, current_agent, set_agent, set_model, note_session, note_agent, note_model,
  note_profile, composed, text_or_empty, parse_agent_keys, add_entries, add_entry, put_named,
}
use dmr.Identity.Context.Naming.{
  Note, of_agent, of_model, IsKept, last_named, note, note_all, note_all-IsOf,
}
use dmr.Forensics.Report.{split}
use dmr.Identity.Labels.{is_none, has_unknown_key, identify-raises}

abbrev keyed : Headers
keyed = (codes "x-api-key", codes "k1") ∷ (codes "user-agent", codes "openclaw/1.4 (linux)") ∷ []

abbrev slashed : Headers
slashed = (codes "x-api-key", codes "k1") ∷ (codes "user-agent", codes "/probe") ∷ []

abbrev short_digest : Text → Text
short_digest t = codes "2bad35cb"

identify-keyed :
    identify [] short_digest keyed (codes "10.0.0.2") ≡ some (codes "openclaw~2bad35cb")
unfolding identify
identify-keyed = refl

identify-slashed : identify [] short_digest slashed (codes "10.0.0.2") ≡ none
unfolding identify
identify-slashed = refl

identify-raises_example : is_none (identify [] short_digest slashed (codes "10.0.0.2")) ≡ (
    has_unknown_key [] slashed
    && has_prefix (codes "/") (strip (header_or_empty (codes "user-agent") slashed)))
identify-raises_example = identify-raises [] short_digest slashed (codes "10.0.0.2")

abbrev notes : List Note
notes =
    of_agent (some (codes "planner")) (some (codes "s-1"))
    ∷ of_model (some (codes "qwen")) none
    ∷ of_agent (some (codes " research ")) none
    ∷ []

note_all-IsOf_example :
    IsKept (codes "0a1b2c3d") (codes "openclaw~2bad35cb") (codes "10.0.0.2") (last_named notes []) (
      note_all notes
        (new_request_context (codes "0a1b2c3d") (codes "openclaw~2bad35cb") (codes "10.0.0.2")))
note_all-IsOf_example =
    note_all-IsOf (codes "0a1b2c3d") (codes "openclaw~2bad35cb") (codes "10.0.0.2") notes

set_agent_composes :
    current_agent (
      note_all notes
        (new_request_context (codes "0a1b2c3d") (codes "openclaw~2bad35cb") (codes "10.0.0.2")))
    ≡ codes "openclaw/research"
unfolding current_agent note_all note new_request_context set_agent set_model note_session
    note_agent note_model note_profile composed text_or_empty
set_agent_composes = refl

parse_agent_keys-entries :
    parse_agent_keys (codes "k1:planner, k2 : reviewer ,:x,k3")
    ≡ (codes "k1", codes "planner") ∷ (codes "k2", codes "reviewer") ∷ []
unfolding parse_agent_keys add_entries add_entry put_named put partition onto_key split
parse_agent_keys-entries = refl
