-- ===== src/App/Admin.antt =====
-- gateway/app.py, the handlers under /admin: set_profile, stop_container and remove_container, on the orchestrator of
-- gateway/orchestrator.py.
use dmr.Prelude.{
  ℕ, String, Bool, true, false, ◌&&◌, not, Option, none, some, List, [], ◌∷◌, str_eq, eq_iff,
  if◌then◌else◌, ◌≡◌, refl, ◌⊎◌, inl, inr, ◌∙◌, ap,
}
use dmr.Config.{VramProfile, ProfileMode, get_profile}
use dmr.Orchestrator.Exec.{
  ContainerState, modify, St, Result, ok, err, Exec, pure, gets, ◌>>=◌, ◌>>◌, continue,
}
use dmr.Orchestrator.Outside.{World}
use dmr.Orchestrator.Outside
use dmr.Orchestrator.Settings.{Settings}
use dmr.Orchestrator.Swap.{switch_profile, is_active}
use dmr.Orchestrator.Startup.{stop_container}
use dmr.Orchestrator.Outcome.{Settled, switch_profile-Settled}

-- An HTTPException with its status code, or a GatewayResponse with the new mode.
pub data AdminReply : Type 0 where
  http_error : ℕ → AdminReply
  switched : ProfileMode → AdminReply

unfoldable pub reply_of : VramProfile → Bool → AdminReply
reply_of p true = switched p.mode
reply_of p false = http_error 500

-- _container_states.pop(name, None)
unfoldable pub drop_state : String → List (String × ContainerState) → List (String × ContainerState)
drop_state n [] = []
drop_state n ((k, v) ∷ kvs) = if str_eq k n then kvs else (k, v) ∷ drop_state n kvs

module _ (e : World) (c : Settings) where
  open e use {State}

  unfoldable pub switch_to : String → Bool → VramProfile → Bool → Exec State AdminReply
  switch_to name force p true = pure (http_error 409)
  switch_to name force p false = do
    success ← switch_profile e c name p force
    pure (reply_of p success)

  unfoldable pub set_registered : String → Bool → Option VramProfile → Exec State AdminReply
  unfolding switch_to
  set_registered name force none = pure (http_error 400)
  set_registered name force (some p) = do
    swapping ← gets (λ s. s.swap_in_progress)
    switch_to name force p swapping

  -- POST /admin/profile/{profile_name}
  unfoldable pub set_profile : String → Bool → Exec State AdminReply
  unfolding set_registered get_profile
  set_profile name force = set_registered name force (get_profile name c.registry)

  -- POST /admin/container/{container_name}/stop
  unfoldable pub stop : String → Exec State (Unit {0})
  stop name = stop_container e c name

  -- orchestrator.remove_container: the container's state is forgotten.
  unfoldable pub remove : String → Exec State (Unit {0})
  unfolding drop_state
  remove name =
      Outside.remove_workload e name
      >> modify (λ s. record s { container_states = drop_state name s.container_states })

-- What a call of set_profile answers and leaves, by what the registry has for the name and whether a swap is in progress.
abbrev pub Answered :
    {W : Type 0} → String → St W → Option VramProfile → Bool → Result AdminReply × St W → Type 0
Answered name s none swapping r = r ≡ (ok (http_error 400), s)
Answered name s (some p) true r = r ≡ (ok (http_error 409), s)
Answered name s (some p) false r =
    (r.1.swap_in_progress ≡ false)
    × (((r.0 ≡ ok (switched p.mode)) × (r.1.active_profile ≡ some name))
        ⊎ ((r.0 ≡ ok (http_error 500)) × (r.1.active_profile ≡ s.active_profile)))

module _ (e : World) (c : Settings) (name : String) (p : VramProfile) where
  -- What is made of the answer of switch_profile.
  replied : Result Bool × St e.State → Result AdminReply × St e.State
  replied r = continue (λ success. pure (reply_of p success)) r

  replied-Answered :
      (s : St e.State) (skip : Bool) (r : Result Bool × St e.State)
      → s.swap_in_progress ≡ false
      → (skip ≡ true → s.active_profile ≡ some name)
      → Settled name s skip r
      → Answered name s (some p) false (replied r)
  unfolding Settled replied reply_of pure
  replied-Answered s true (ok true, t) h k (a, b) =
      (ap (λ u. u.swap_in_progress) b ∙ h, inl (refl, ap (λ u. u.active_profile) b ∙ k refl))
  replied-Answered s true (ok false, t) h k (a, b) = absurd (cc a)
  replied-Answered s true (err x, t) h k (a, b) = absurd (cc a)
  replied-Answered s false (ok true, t) h k (a, inl (b, d)) = (a, inl (refl, d))
  replied-Answered s false (ok true, t) h k (a, inr (b, d)) = absurd (cc b)
  replied-Answered s false (ok false, t) h k (a, inl (b, d)) = absurd (cc b)
  replied-Answered s false (ok false, t) h k (a, inr (b, d)) = (a, inr (refl, d))
  replied-Answered s false (err x, t) h k (a, inl (b, d)) = absurd (cc b)
  replied-Answered s false (err x, t) h k (a, inr (b, d)) = absurd (cc b)

is_active-same :
    (e : World) (c : Settings) (key : String) (o : Option String) (force : Bool)
    → is_active e c key o && not force ≡ true
    → o ≡ some key
unfolding is_active
is_active-same e c key none force h = absurd (cc h)
is_active-same e c key (some k) force h = ap some ((eq_iff k key).0 (and-left _ (not force) h))
  where
    and-left : (a b : Bool) → a && b ≡ true → a ≡ true
    and-left true b e = refl
    and-left false b e = cc

-- POST /admin/profile answers 400 for a name that is not registered and 409 during a swap, and then changes nothing; else no
-- swap is in progress afterwards, and either it answers with the mode of the named profile, which is then active, or with 500,
-- and the active profile is the one before.
pub set_profile-Answered :
    (e : World) (c : Settings) (name : String) (force : Bool) (s : St e.State)
    → Answered name s
        (get_profile name c.registry)
        s.swap_in_progress
        (set_profile e c name force s)
unfolding set_profile replied ◌>>=◌ pure gets
set_profile-Answered e c name force s = found (get_profile name c.registry)
  where
    swapping :
        (p : VramProfile) (b : Bool)
        → s.swap_in_progress ≡ b
        → Answered name s (some p) b (switch_to e c name force p b s)
    swapping p true h = refl
    swapping p false h =
        replied-Answered e c name p s _ (switch_profile e c name p force s) h
          (is_active-same e c name s.active_profile force)
          (switch_profile-Settled e c name p force s)

    found :
        (o : Option VramProfile)
        → Answered name s o s.swap_in_progress (set_registered e c name force o s)
    found none = refl
    found (some p) = swapping p s.swap_in_progress refl
