-- ===== src/App/Requests.antt =====
-- gateway/app.py, _chat_completions. What the awaits come to are inputs; identity, cache statistics and log lines are left out.
use dmr.Prelude.{
  ℕ, ◌≡◌, refl, String, Bool, true, false, ◌&&◌, ◌||◌, not, Option, none, some, List, str_eq,
  if◌then◌else◌,
}
use dmr.App.{Swaps, get_or_create_swap_task, Step, run}
use dmr.App.Joining.{IsJoined, get_or_create_swap_task-IsJoined}

-- What _chat_completions reads of the orchestrator.
pub record Seen : Type 0 where
  pub current_profile : Option String
  pub target_key : String
  pub model_ready : Bool
  pub is_swapping : Bool

-- `wait_for(shield(swap_task))`: the task's result, or the time is out.
pub data SwapWait : Type 0 where
  swap_done : Bool → SwapWait
  swap_pending : SwapWait

-- What _dispatch_to_backend comes to; `plain` says whether the object is a "chat.completion".
pub data Dispatched (J : Type 0) : Type 0 where
  dispatch_raised : String → Dispatched J
  error_dict : Option ℕ → Option String → Dispatched J
  plain : Bool → J → Dispatched J

-- An HTTPException, with whether it has Retry-After, or a response.
pub data ChatReply (J : Type 0) : Type 0 where
  http_error : ℕ → String → Bool → ChatReply J
  streaming json gateway_response : J → ChatReply J

-- The reply, the swap task that was waited for, and whether the backend was asked.
pub record Handled (J : Type 0) : Type 0 where
  pub reply : ChatReply J
  pub joined : Option ℕ
  pub asked : Bool
  pub swaps : Swaps

unfoldable pub or_default : {A : Type 0} → A → Option A → A
or_default d none = d
or_default d (some a) = a

-- Steps 4 to 6.
unfoldable pub answer : {J : Type 0} → Bool → Dispatched J → ChatReply J
unfolding or_default
answer stream (dispatch_raised e) = http_error 502 e false
answer stream (error_dict code text) =
    http_error (or_default 502 code) (or_default "Backend error" text) false
answer true (plain completion j) = streaming j
answer false (plain true j) = json j
answer false (plain false j) = gateway_response j

unfoldable pub is_current : Seen → Bool
unfolding or_default
is_current q = str_eq (or_default "" q.current_profile) q.target_key

unfoldable pub needs_swap : Seen → Bool
unfolding is_current
needs_swap q = not (is_current q) || not q.model_ready || q.is_swapping

unfoldable pub force_swap : Seen → Bool
unfolding is_current
force_swap q = is_current q && not q.model_ready && not q.is_swapping

unfoldable pub dispatch : {J : Type 0} → Bool → Dispatched J → Option ℕ → Swaps → Handled J
unfolding answer
dispatch stream d task s = record {
  reply = answer stream d;
  joined = task;
  asked = true;
  swaps = s;
}

unfoldable pub refuse : {J : Type 0} → String → ℕ → Swaps → Handled J
refuse why task s = record {
  reply = http_error 503 why true;
  joined = some task;
  asked = false;
  swaps = s;
}

-- A request that waits for the task, or with LONG_POLLING_ENABLED off is sent away.
unfoldable pub after_swap :
    {J : Type 0} → Bool → Bool → SwapWait → Dispatched J → ℕ × Swaps → Handled J
unfolding dispatch refuse
after_swap false stream w d r = refuse "Profile switch in progress" r.0 r.1
after_swap true stream swap_pending d r = refuse "Swap still in progress, please retry" r.0 r.1
after_swap true stream (swap_done false) d r = refuse "Model swap failed" r.0 r.1
after_swap true stream (swap_done true) d r = dispatch stream d (some r.0) r.1

-- _chat_completions, for LONG_POLLING_ENABLED, request.stream and what the awaits come to.
unfoldable pub chat_request :
    {J : Type 0} → Bool → Bool → Seen → SwapWait → Dispatched J → Swaps → Handled J
unfolding needs_swap force_swap after_swap dispatch get_or_create_swap_task
chat_request polling stream q w d s =
    if needs_swap q
    then after_swap polling stream w d (get_or_create_swap_task q.target_key (force_swap q) s)
    else dispatch stream d none s

-- The model serves the request as it is.
abbrev pub serves_now : Seen → Bool
serves_now q = is_current q && q.model_ready && not q.is_swapping

-- The backend may be asked: nothing has to be swapped, or the swap that was waited for succeeded.
abbrev pub may_ask : Bool → Bool → SwapWait → Bool
may_ask serves polling swap_pending = serves
may_ask serves polling (swap_done b) = serves || (polling && b)

abbrev pub IsRetryLater : {J : Type 0} → ChatReply J → Type 0
IsRetryLater (http_error code e retry) = (code ≡ 503) × (retry ≡ true)
IsRetryLater _ = ⊥

-- What became of the swap tasks: none is joined if the model serves the request; else one for its profile.
abbrev pub IsSettled : {J : Type 0} → Bool → Seen → Swaps → Handled J → Type 0
IsSettled true q s h = (h.joined ≡ none) × (h.swaps ≡ s)
IsSettled false q s h =
    (i : ℕ) × (h.joined ≡ some i) × IsJoined q.target_key (force_swap q) s (i, h.swaps)

-- What a request leaves behind, by whether the model serves it as it is.
abbrev pub IsHandled : {J : Type 0} → Bool → Bool → Seen → SwapWait → Swaps → Handled J → Type 0
IsHandled serves polling q w s h =
    (h.asked ≡ may_ask serves polling w)
    × ((h.asked ≡ false → IsRetryLater h.reply) × IsSettled serves q s h)

after_swap-IsHandled :
    {J : Type 0} (polling stream : Bool) (q : Seen) (w : SwapWait) (d : Dispatched J) (s : Swaps)
    (r : ℕ × Swaps)
    → IsJoined q.target_key (force_swap q) s r
    → IsHandled false polling q w s (after_swap polling stream w d r)
unfolding after_swap dispatch refuse
after_swap-IsHandled false stream q swap_pending d s r j =
    (refl, ((λ e. (refl, refl)), (r.0, refl, j)))
after_swap-IsHandled false stream q (swap_done b) d s r j =
    (refl, ((λ e. (refl, refl)), (r.0, refl, j)))
after_swap-IsHandled true stream q swap_pending d s r j =
    (refl, ((λ e. (refl, refl)), (r.0, refl, j)))
after_swap-IsHandled true stream q (swap_done false) d s r j =
    (refl, ((λ e. (refl, refl)), (r.0, refl, j)))
after_swap-IsHandled true stream q (swap_done true) d s r j =
    (refl, ((λ e. absurd (cc e)), (r.0, refl, j)))

dispatch-IsHandled :
    {J : Type 0} (polling stream : Bool) (q : Seen) (w : SwapWait) (d : Dispatched J) (s : Swaps)
    → IsHandled true polling q w s (dispatch stream d none s)
unfolding dispatch
dispatch-IsHandled polling stream q swap_pending d s = (refl, ((λ e. absurd (cc e)), (refl, refl)))
dispatch-IsHandled polling stream q (swap_done b) d s = (refl, ((λ e. absurd (cc e)), (refl, refl)))

needs_swap-serves : (q : Seen) → needs_swap q ≡ not (serves_now q)
unfolding needs_swap
needs_swap-serves q = de_morgan (is_current q) q.model_ready q.is_swapping
  where
    de_morgan : (a b c : Bool) → (not a || not b || c) ≡ not (a && b && not c)
    de_morgan true true true = refl
    de_morgan true true false = refl
    de_morgan true false c = refl
    de_morgan false b c = refl

-- After any history of swap tasks, the backend is asked just if the profile is loaded and its model ready with no swap under
-- way, or with long polling the swap that was waited for succeeded; else the client is told 503 with Retry-After. In the first
-- case the swap tasks are left alone, else the newest task, which is not done and for the request's profile, is joined.
pub chat_request-IsHandled :
    {J : Type 0} (xs : List Step) (polling stream : Bool) (q : Seen) (w : SwapWait)
    (d : Dispatched J)
    → IsHandled (serves_now q) polling q w (run xs) (chat_request polling stream q w d (run xs))
unfolding chat_request
chat_request-IsHandled xs polling stream q w d =
    pick (serves_now q) (needs_swap q) (needs_swap-serves q)
  where
    pick :
        (b n : Bool)
        → n ≡ not b
        → IsHandled b polling q w (run xs) (
            if n
            then after_swap polling stream w d
                (get_or_create_swap_task q.target_key (force_swap q) (run xs))
            else dispatch stream d none (run xs))
    pick true true e = absurd (cc e)
    pick true false e = dispatch-IsHandled polling stream q w d (run xs)
    pick false true e =
        after_swap-IsHandled polling stream q w d (run xs)
          (get_or_create_swap_task q.target_key (force_swap q) (run xs))
          (get_or_create_swap_task-IsJoined xs q.target_key (force_swap q))
    pick false false e = absurd (cc e)
