-- ===== src/Proxy.antt =====
-- gateway/proxy.py, class InferenceProxy: the requests it sends to a backend and what it hands on.
-- HTTP is outside: an attempt's answer is an input. Log lines are left out.
pub mod Exchange
pub mod Stream
pub mod Chat
pub mod Retries
pub mod Names
mod Tests
use dmr.Prelude.{
  ℕ, zero, suc, ◌+◌, String, Bool, true, false, ◌||◌, Option, none, some, List, [], ◌∷◌, ◌++◌, ◌==◌,
  str_eq, if◌then◌else◌,
}
use dmr.Config.{Engine, ModelDefinition, is_exec}

abbrev pub connect_retries : ℕ
connect_retries = 300

abbrev pub connect_retry_delay : ℕ
connect_retry_delay = 2

-- How a POST fails: by an error that the proxy catches (ClientError, TimeoutError, OSError), or another.
pub data Failure : Type 0 where
  caught other : String → Failure

-- What a POST of a chat completion comes to; J stands for what `resp.json()` returns.
pub data Answer (J : Type 0) : Type 0 where
  failed : Failure → Answer J
  refused : ℕ → String → Answer J
  completed : J → Answer J

-- What a POST of a stream comes to: the chunks that came, and how the stream broke, if it did.
pub data StreamAnswer : Type 0 where
  failed_stream : Failure → StreamAnswer
  refused_stream : ℕ → String → StreamAnswer
  streamed : List String → Option Failure → StreamAnswer

-- A GET of /v1/models: no answer that can be read, another status than 200, or the ids that are listed.
pub data Listing : Type 0 where
  unreadable not_ok : Listing
  listed : List String → Listing

-- The texts the proxy makes: the SSE event of an error, "Stream interrupted: …" and "Backend … unreachable …".
pub record Wording : Type 0 where
  pub error_event : String → ℕ → String
  pub interrupted : String → String
  pub unreachable : String → String → String

pub data Event : Type 0 where
  post : ℕ → Event
  sleep : ℕ → Event
  emit : String → Event

-- The value chat_completion returns, or what it raises.
pub data Reply (J : Type 0) : Type 0 where
  result : J → Reply J
  error_reply : String → ℕ → Reply J
  raises : String → Reply J

-- `str(last_exc)`, `None` before the first failure.
unfoldable pub shown : Option String → String
shown none = "None"
shown (some e) = e

-- `if attempt < CONNECT_RETRIES: sleep`; attempts that are left after this one.
unfoldable pub pause : ℕ → List Event
pause zero = []
pause (suc n) = sleep connect_retry_delay ∷ []

-- The chat loop, with the number of the attempt and the attempts that are left.
unfoldable pub chat_loop :
    {J : Type 0} → Wording → String → (ℕ → Answer J) → ℕ → ℕ → Option String → Reply J × List Event
unfolding pause shown
chat_loop w name answers n zero last = (error_reply (w.unreachable name (shown last)) 502, [])
chat_loop w name answers n (suc left) last = elim (answers n) [
  | completed j ↦ (result j, post n ∷ [])
  | refused code body ↦ (error_reply body code, post n ∷ [])
  | failed (other e) ↦ (raises e, post n ∷ [])
  | failed (caught e) ↦
      let rest = chat_loop w name answers (suc n) left (some e) in
      (rest.0, post n ∷ (pause left ++ rest.1))
]

-- chat_completion without `stream`, after the payload is made.
unfoldable pub chat_completion :
    {J : Type 0} → Wording → ModelDefinition → (ℕ → Answer J) → Reply J × List Event
unfolding chat_loop
chat_completion w m answers = chat_loop w m.container_name answers 1 connect_retries none

unfoldable pub emits : List String → List Event
emits [] = []
emits (c ∷ cs) = emit c ∷ emits cs

unfoldable pub any_sent : Bool → List String → Bool
any_sent b [] = b
any_sent b (c ∷ cs) = true

-- What a stream comes to: what was raised out of the generator, if anything, and what happened.
abbrev pub Streamed : Type 0
Streamed = Option String × List Event

-- The except clause of an attempt that had sent `cs`: the stream is broken off, or `rest` tries again.
unfoldable pub on_caught : Wording → List String → String → ℕ → Streamed → Bool → Streamed
unfolding pause emits
on_caught w cs e left rest true =
    (none, emits cs ++ emit (w.error_event (w.interrupted e) 502) ∷ [])
on_caught w cs e left rest false = (rest.0, emits cs ++ (pause left ++ rest.1))

unfoldable pub attempt : Wording → StreamAnswer → Bool → ℕ → (String → Bool → Streamed) → Streamed
unfolding on_caught emits any_sent
attempt w (refused_stream code body) sent_any left again =
    (none, emit (w.error_event body code) ∷ [])
attempt w (failed_stream (other e)) sent_any left again = (some e, [])
attempt w (failed_stream (caught e)) sent_any left again =
    on_caught w [] e left (again e sent_any) sent_any
attempt w (streamed cs none) sent_any left again = (none, emits cs)
attempt w (streamed cs (some (other e))) sent_any left again = (some e, emits cs)
attempt w (streamed cs (some (caught e))) sent_any left again =
    on_caught w cs e left (again e (any_sent sent_any cs)) (any_sent sent_any cs)

-- The stream loop; `sent_any` and `last` are variables of its surroundings.
unfoldable pub stream_loop : Wording → (ℕ → StreamAnswer) → ℕ → ℕ → Bool → Option String → Streamed
unfolding shown attempt
stream_loop w answers n zero sent_any last = (none, emit (w.error_event (shown last) 502) ∷ [])
stream_loop w answers n (suc left) sent_any last =
    let r =
      attempt w (answers n) sent_any left
        (λ e sent. stream_loop w answers (suc n) left sent (some e)) in
    (r.0, post n ∷ r.1)

unfoldable pub stream_response : Wording → (ℕ → StreamAnswer) → Streamed
unfolding stream_loop
stream_response w answers = stream_loop w answers 1 connect_retries false none

-- _default_resolve, where `head` is RAY_HEAD_HOST.
unfoldable pub default_resolve : String → String → Engine → String
unfolding is_exec
default_resolve head name engine = if is_exec engine then head else name

unfoldable pub backend_host : (String → Engine → String) → ModelDefinition → String
backend_host resolve m = resolve m.container_name m.engine

-- healthcheck: the answer's status, if there was one.
unfoldable pub healthcheck : Option ℕ → Bool
healthcheck none = false
healthcheck (some code) = code == 200
