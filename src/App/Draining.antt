-- ===== src/App/Draining.antt =====
-- gateway/app.py: requests that wait for a swap in the buffer, _handle_during_swap and _drain_buffered_requests, with the buffer of
-- gateway/request_buffer.py and the router of gateway/router.py. What a dispatch comes to is an input.
pub mod Settles
use dmr.Prelude.{
  ℕ, suc, String, Bool, true, false, Option, none, some, List, [], ◌∷◌, if◌then◌else◌,
}
use dmr.Config.{ModelDefinition, VramProfile, Registry}
use dmr.Router.{RoutingDecision, route}
use dmr.Buffer.{
  buffer_overflow, expired, rejected, dispatch_failed, Future, pending, cancelled, result, failed,
  BufferedRequest, Buffer, complete, drain_all, resolve, reject_all,
}
use dmr.App.{Swapped, success, swap_error}
use dmr.App.Requests.{
  Dispatched, dispatch_raised, error_dict, plain, ChatReply, http_error, gateway_response,
  or_default,
}

-- What _handle_during_swap answers for the future it waited for; `none` where the time was out. Any
-- exception but the two that it catches makes a 500.
unfoldable pub reply_during :
    {J : Type 0} → Option (Future (Dispatched J)) → ChatReply (Dispatched J)
unfolding or_default
reply_during none = http_error 503 "Long polling timeout" true
reply_during (some (failed buffer_overflow)) = http_error 503 "Queue full — swap in progress" true
reply_during (some (failed expired)) = http_error 503 "Long polling timeout" true
reply_during (some (failed (rejected e))) = http_error 500 e false
reply_during (some (failed (dispatch_failed e))) = http_error 500 e false
reply_during (some (result (error_dict code text))) =
    http_error (or_default 502 code) (or_default "Backend error" text) false
reply_during (some (result r)) = gateway_response r
reply_during (some _) = http_error 503 "Long polling timeout" true

-- _handle_during_swap, for LONG_POLLING_ENABLED and what became of the future of `enqueue`.
unfoldable pub handle_during_swap :
    {J : Type 0} → Bool → Option (Future (Dispatched J)) → ChatReply (Dispatched J)
unfolding reply_during
handle_during_swap true w = reply_during w
handle_during_swap false w = http_error 503 "Model swap in progress" true

-- What a drain finds outside: the profile that is active and the answer of the backend, for the k-th request, and the futures
-- that are cancelled while it is dispatched.
pub record Drain (A R : Type 0) : Type 0 where
  pub registry : Registry
  pub models : List ModelDefinition
  pub fallback : VramProfile
  pub model_of : A → String
  pub active : ℕ → Option VramProfile
  pub answer : ℕ → RoutingDecision → A → Dispatched R
  pub cancels : ℕ → List ℕ

module _ {R : Type 0} where
  unfoldable pub cancel_all : List ℕ → List (Future (Dispatched R)) → List (Future (Dispatched R))
  unfolding complete
  cancel_all [] fs = fs
  cancel_all (f ∷ gs) fs = cancel_all gs (complete f cancelled fs)

  -- What is put into the future of the request.
  unfoldable pub outcome_of : Dispatched R → Future (Dispatched R)
  outcome_of (dispatch_raised e) = failed (dispatch_failed e)
  outcome_of r = result r

module _ {A R : Type 0} where
  -- route and _dispatch_to_backend for one request; no model to route to is an IndexError.
  unfoldable pub served_by : Drain A R → ℕ → A → Dispatched R
  served_by d k a = elim (route d.registry d.models d.fallback (d.model_of a) (d.active k)) [
    | none ↦ dispatch_raised "list index out of range"
    | some decision ↦ d.answer k decision a
  ]

  -- The loop of _drain_buffered_requests, from its k-th request.
  unfoldable pub drain_items :
      Drain A R
      → ℕ
      → List (BufferedRequest A)
      → List (Future (Dispatched R))
      → List (Future (Dispatched R))
  unfolding served_by cancel_all outcome_of complete
  drain_items d k [] fs = fs
  drain_items d k (item ∷ items) fs =
      drain_items d (suc k) items (
        complete item.future (outcome_of (served_by d k item.request))
          (cancel_all (d.cancels k) fs))

  -- _drain_buffered_requests
  unfoldable pub drain_buffered_requests :
      Drain A R → (ℕ → ℕ) → Buffer A (Dispatched R) → Buffer A (Dispatched R)
  unfolding drain_items drain_all
  drain_buffered_requests d clock b =
      let (drained, b') = drain_all clock b in
      record b' { futures = drain_items d 0 drained b'.futures }

  -- What _execute_swap_and_drain does with the buffer after a swap.
  unfoldable pub end_of_swap :
      Drain A R → (ℕ → ℕ) → Swapped → Buffer A (Dispatched R) → Buffer A (Dispatched R)
  unfolding drain_buffered_requests reject_all
  end_of_swap d clock (success true) b = drain_buffered_requests d clock b
  end_of_swap d clock (success false) b = reject_all "Swap failed" b
  end_of_swap d clock (swap_error e) b = reject_all e b
