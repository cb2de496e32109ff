-- ===== src/App/Leases.antt =====
-- gateway/app.py, chat_completions, with until_disconnect and AdmittedStreamingResponse of gateway/admission.py: who holds the lease
-- of a request. What the awaits come to are inputs: the wait for a slot, _chat_completions, the client, the sending of the
-- response and the closing of its generator.
use dmr.Prelude.{
  ◌≡◌, ℕ, refl, String, Bool, true, false, Option, none, some, List, [], ◌∷◌, ◌++◌, if◌then◌else◌,
}
use dmr.Admission
use dmr.Admission.{Queue, Outcome, leased, queue_full, waits}
use dmr.App.Requests.{ChatReply, http_error, streaming, json, gateway_response}

-- An HTTPException with its status, its text and whether it has Retry-After; or the task is cancelled, or fails.
pub data Raise : Type 0 where
  http : ℕ → String → Bool → Raise
  cancelled failed : Raise

pub data Ends (A : Type 0) : Type 0 where
  returned : A → Ends A
  raised : Raise → Ends A

pub data Event : Type 0 where
  acquired released : ℕ → Event
  sent closed : Event

-- The variables of chat_completions, and what was done so far.
pub record Local : Type 0 where
  pub lease : Option ℕ
  pub transferred : Bool
  pub events : List Event

abbrev pub Handler : Type 0 → Type 0
Handler A = Local → Ends A × Local

abbrev pub note : Event → Local → Local
note e s = record s { events = s.events ++ e ∷ [] }

module _ {A : Type 0} where
  unfoldable pub pure : A → Handler A
  pure a s = (returned a, s)

  unfoldable pub throw : Raise → Handler A
  throw x s = (raised x, s)

  -- The answer of try: m; finally: c.
  abbrev pub last_word : Ends A → Ends (Unit {0}) → Ends A
  last_word r (returned x) = r
  last_word r (raised x) = raised x

  unfoldable pub finally : Handler A → Handler (Unit {0}) → Handler A
  finally m c s = let (r, t) = m s in let (x, u) = c t in (last_word r x, u)

module _ {A B : Type 0} where
  abbrev pub continue : (A → Handler B) → Ends A × Local → Ends B × Local
  continue k (returned a, s) = k a s
  continue k (raised x, s) = (raised x, s)

  infixl 10 ◌>>=◌
  unfoldable pub ◌>>=◌ : Handler A → (A → Handler B) → Handler B
  ◌>>=◌ m k s = continue k (m s)

-- What the wait of AdmissionQueue.acquire comes to, where it waits.
pub data Waited : Type 0 where
  served : ℕ → Waited
  expired abandoned : Waited

-- What `await inference_queue.acquire(profile)` comes to.
pub data Acquired : Type 0 where
  granted : ℕ → Acquired
  full late given_up : Acquired

unfoldable pub after_wait : Outcome → Waited → Acquired
after_wait (leased l) w = granted l
after_wait queue_full w = full
after_wait (waits f) (served l) = granted l
after_wait (waits f) expired = late
after_wait (waits f) abandoned = given_up

-- What _chat_completions comes to: a reply, where an HTTPException is http_error, or another exception.
pub data Worked (J : Type 0) : Type 0 where
  replied : ChatReply J → Worked J
  broken : Raise → Worked J

unfoldable pub hold : ℕ → Handler (Unit {0})
hold l s = (returned tt, note (acquired l) (record s { lease = some l }))

unfoldable pub finish : {J : Type 0} → Worked J → Handler (ChatReply J)
unfolding pure throw
finish (replied (http_error code e retry)) = throw (http code e retry)
finish (replied r) = pure r
finish (broken x) = throw x

-- admitted
unfoldable pub admitted : {J : Type 0} → Acquired → Worked J → Handler (ChatReply J)
unfolding hold finish throw ◌>>=◌
admitted (granted l) w = hold l >>= λ _. finish w
admitted full w = throw (http 503 "Inference queue is full" true)
admitted late w = throw (http 503 "Inference queue wait timed out" true)
admitted given_up w = throw cancelled

-- What the wait of until_disconnect comes to: the work is done, the client has left, or the request's own task is cancelled.
pub data Race : Type 0 where
  work_done gone interrupted : Race

unfoldable pub race_ends : {A : Type 0} → Race → Ends A × Local → Ends A × Local
race_ends work_done r = r
race_ends gone (r, t) = (raised (http 499 "Client disconnected" false), t)
race_ends interrupted (r, t) = (raised cancelled, t)

-- until_disconnect, whose `finally` awaits the work.
unfoldable pub until_disconnect : {A : Type 0} → Race → Handler A → Handler A
unfolding race_ends
until_disconnect left work s = race_ends left (work s)

-- The lease goes over to an AdmittedStreamingResponse, which is returned with its `lease`.
unfoldable pub hand_over : {J : Type 0} → ChatReply J → Handler (ChatReply J × Option ℕ)
hand_over (streaming j) s = (returned (streaming j, s.lease), record s { transferred = true })
hand_over r s = (returned (r, none), s)

unfoldable pub release_held : Option ℕ → Handler (Unit {0})
release_held none s = (returned tt, s)
release_held (some l) s = (returned tt, note (released l) s)

-- `if lease is not None and not transferred: lease.release()`
unfoldable pub release_kept : Handler (Unit {0})
unfolding release_held
release_kept s = if s.transferred then (returned tt, s) else release_held s.lease s

unfoldable pub chat_completions :
    {J : Type 0} → Acquired → Worked J → Race → Handler (ChatReply J × Option ℕ)
unfolding finally until_disconnect admitted hand_over release_kept ◌>>=◌
chat_completions a w left =
    finally (until_disconnect left (admitted a w) >>= hand_over) release_kept

unfoldable pub does : Event → Ends (Unit {0}) → Handler (Unit {0})
does e r s = (r, note e s)

-- AdmittedStreamingResponse.__call__
unfoldable pub send_response : Option ℕ → Ends (Unit {0}) → Ends (Unit {0}) → Handler (Unit {0})
unfolding finally does release_held
send_response lease sending closing =
    finally (does sent sending) (finally (does closed closing) (release_held lease))

-- The response that is returned is sent.
unfoldable pub respond :
    {J : Type 0} → Ends (Unit {0}) → Ends (Unit {0}) → ChatReply J × Option ℕ → Handler (Unit {0})
unfolding send_response pure
respond sending closing (streaming j, lease) = send_response lease sending closing
respond sending closing (r, lease) = pure tt

unfoldable pub serve :
    {J : Type 0}
    → Acquired
    → Worked J
    → Race
    → Ends (Unit {0})
    → Ends (Unit {0})
    → Handler (Unit {0})
unfolding chat_completions respond ◌>>=◌
serve a w left sending closing = chat_completions a w left >>= respond sending closing

abbrev pub untouched : Local
untouched = record { lease = none; transferred = false; events = [] }

-- The client stays and gets a stream.
abbrev pub is_streamed : {J : Type 0} → Worked J → Race → Bool
is_streamed (replied (streaming j)) work_done = true
is_streamed w left = false

abbrev pub expected : Acquired → Bool → List Event
expected (granted l) true = acquired l ∷ sent ∷ closed ∷ released l ∷ []
expected (granted l) false = acquired l ∷ released l ∷ []
expected _ streamed = []

serve-events :
    {J : Type 0} (a : Acquired) (w : Worked J) (left : Race) (sending closing : Ends (Unit {0}))
    → (serve a w left sending closing untouched).1.events ≡ expected a (is_streamed w left)
unfolding serve
serve-events (granted l) (replied (http_error c e r)) gone x y = refl
serve-events (granted l) (replied (http_error c e r)) interrupted x y = refl
serve-events (granted l) (replied (http_error c e r)) work_done x y = refl
serve-events (granted l) (replied (streaming j)) gone x y = refl
serve-events (granted l) (replied (streaming j)) interrupted x y = refl
serve-events (granted l) (replied (streaming j)) work_done x y = refl
serve-events (granted l) (replied (json j)) gone x y = refl
serve-events (granted l) (replied (json j)) interrupted x y = refl
serve-events (granted l) (replied (json j)) work_done x y = refl
serve-events (granted l) (replied (gateway_response j)) gone x y = refl
serve-events (granted l) (replied (gateway_response j)) interrupted x y = refl
serve-events (granted l) (replied (gateway_response j)) work_done x y = refl
serve-events (granted l) (broken z) gone x y = refl
serve-events (granted l) (broken z) interrupted x y = refl
serve-events (granted l) (broken z) work_done x y = refl
serve-events full w gone x y = refl
serve-events full w interrupted x y = refl
serve-events full w work_done x y = refl
serve-events late w gone x y = refl
serve-events late w interrupted x y = refl
serve-events late w work_done x y = refl
serve-events given_up w gone x y = refl
serve-events given_up w interrupted x y = refl
serve-events given_up w work_done x y = refl

-- For any queue, what is done for a chat request is this, whatever the wait for a slot, _chat_completions, the client, the sending
-- and the closing come to, exceptions and cancellation included: a lease that is granted is released exactly once, and,
-- if a stream is sent, after its sending has ended and its generator was closed; no lease is released that was not
-- granted to the request.
pub serve-releases :
    {J : Type 0} (p : String) (q : Queue) (u : Waited) (w : Worked J) (left : Race)
    (sending closing : Ends (Unit {0}))
    → (serve (after_wait (Admission.acquire p q).0 u) w left sending closing untouched).1.events
      ≡ expected (after_wait (Admission.acquire p q).0 u) (is_streamed w left)
serve-releases p q u w left sending closing =
    serve-events (after_wait (Admission.acquire p q).0 u) w left sending closing
