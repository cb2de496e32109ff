-- ===== src/Admission/Progress.antt =====
-- No waiter of gateway/admission.py's queue is forgotten: what can be admitted has been admitted.
use mathlib.Core.Path.{subst}
use dmr.Prelude.{
  ℕ, ◌≤◌, ◌<◌, String, ◌≡◌, refl, ◌⊎◌, inl, inr, true, false, some, List, [], ◌∷◌, ◌++◌, arith,
  length, get_elem?, get_elem?-set_self, get_elem?-set_ne, get_elem?-append_old,
  get_elem?-append_new, set, ℤ, Bool-cases, ◌==◌, sym, if◌then◌else◌,
}
use dmr.Admission.{
  Queue, Future, pending, cancelled, Event, acquires, expires, abandons, releases, create,
  is_profile, halt, verdict, promote, vacate, release, has_room, acquire, expire, abandon, step,
  run, grant,
}
use dmr.Admission.Loop.{
  promote_loop_rule, release_cases, acquire_cases, expire_cases, cancel, enqueue,
}
use dmr.Admission.Invariant.{run-create-Inv}

-- The head of the queue, if there is one, has to wait: no slot is free, or it wants another profile
-- than the batch that is running.
abbrev pub Blocked : List (String × ℕ) → Queue → Type 0
Blocked [] q = Unit {0}
Blocked ((p, f) ∷ ws) q =
    (q.limit ≤ q.active)
    ⊎ ((get_elem? q.futures f ≡ some pending) × (0 < q.active) × (is_profile q.profile p ≡ false))

-- Some entry's future was cancelled, and its task has yet to run its handler.
abbrev pub Leaving : List Future → List (String × ℕ) → Type 0
Leaving fs [] = ⊥
Leaving fs ((p, f) ∷ ws) = (get_elem? fs f ≡ some cancelled) ⊎ Leaving fs ws

abbrev pub Settled : Queue → Type 0
Settled q = Blocked q.waiting q ⊎ Leaving q.futures q.waiting

verdict-Blocked :
    (p : String) (f : ℕ) (ws : List (String × ℕ)) (q : Queue)
    → verdict p f q ≡ halt
    → Blocked ((p, f) ∷ ws) q
unfolding verdict
verdict-Blocked p f ws q h = ground arith

-- After `_promote` the head has to wait, whatever the state was before.
pub promote-Blocked : (q : Queue) → Blocked (promote q).waiting (promote q)
unfolding promote
promote-Blocked q =
    promote_loop_rule (λ ws r. Unit {0}) (λ r. Blocked r.waiting r) (λ r j. tt)
      (λ p f ws r j e. verdict-Blocked p f ws r e) (λ p f ws r j e. tt) (λ p f ws r j e. tt)
      q.waiting q tt

release-Settled : (l : ℕ) (q : Queue) → Settled q → Settled (release l q)
release-Settled l q s = release_cases Settled l q s λ x h e. inl (promote-Blocked (vacate l q))

Leaving-enqueue :
    (fs : List Future) (ws : List (String × ℕ)) (e : String × ℕ)
    → Leaving fs ws
    → Leaving (fs ++ pending ∷ []) (ws ++ e ∷ [])
Leaving-enqueue fs [] e h = absurd h
Leaving-enqueue fs ((p, f) ∷ ws) e (inl h) =
    inl (get_elem?-append_old fs (pending ∷ []) f cancelled h)
Leaving-enqueue fs ((p, f) ∷ ws) e (inr h) = inr (Leaving-enqueue fs ws e h)

no_room-Blocked :
    (p : String) (q : Queue) (ws : List (String × ℕ))
    → q.waiting ≡ ws
    → has_room p q ≡ false
    → Blocked ws q
    → Blocked (ws ++ (p, length q.futures) ∷ []) (enqueue p q)
unfolding has_room
no_room-Blocked p q [] e h b = ground (arith, get_elem?-append_new q.futures pending)
no_room-Blocked p q ((o, f) ∷ ws) e h (inl full) = inl full
no_room-Blocked p q ((o, f) ∷ ws) e h (inr (w, a, d)) =
    inr (get_elem?-append_old q.futures (pending ∷ []) f pending w, a, d)

pub has_room-empty : (p : String) (q : Queue) → has_room p q ≡ true → q.waiting ≡ []
unfolding has_room
has_room-empty p q h = go q.waiting refl
  where
    go : (ws : List (String × ℕ)) → q.waiting ≡ ws → q.waiting ≡ []
    go [] e = e
    go (w ∷ ws) e = ground arith

acquire-Settled : (p : String) (q : Queue) → Settled q → Settled (acquire p q).1
acquire-Settled p q s =
    acquire_cases Settled p q s
      (λ r.
        inl (unfold grant in subst (λ ws. Blocked ws (grant p q)) (sym (has_room-empty p q r)) tt))
      (λ r m. elim s [
        | inl b ↦ inl (no_room-Blocked p q q.waiting refl r b)
        | inr l ↦ inr (Leaving-enqueue q.futures q.waiting (p, length q.futures) l)
      ])

-- Cancelling one future leaves every other as it was.
get_elem?-cancel :
    (fs : List Future) (f g : ℕ)
    → get_elem? fs f ≡ some pending
    → get_elem? (set fs f cancelled) g ≡ (if f == g then some cancelled else get_elem? fs g)
get_elem?-cancel fs f g h =
    ground (arith, get_elem?-set_self fs f cancelled pending h, get_elem?-set_ne fs f g cancelled)

Leaving-cancel :
    (f : ℕ) (fs : List Future) (ws : List (String × ℕ))
    → get_elem? fs f ≡ some pending
    → Leaving fs ws
    → Leaving (set fs f cancelled) ws
Leaving-cancel f fs [] e h = absurd h
Leaving-cancel f fs ((p, g) ∷ ws) e (inl h) = inl (ground (arith, get_elem?-cancel fs f g e))
Leaving-cancel f fs ((p, g) ∷ ws) e (inr h) = inr (Leaving-cancel f fs ws e h)

Blocked-cancel :
    (f : ℕ) (q : Queue) (ws : List (String × ℕ))
    → get_elem? q.futures f ≡ some pending
    → Blocked ws q
    → Blocked ws (cancel f q) ⊎ Leaving (set q.futures f cancelled) ws
Blocked-cancel f q [] e b = inl tt
Blocked-cancel f q ((p, g) ∷ ws) e (inl b) = inl (inl b)
Blocked-cancel f q ((p, g) ∷ ws) e (inr b) = elim (Bool-cases (f == g)) [
  | inl same ↦ inr (inl (ground (arith, get_elem?-cancel q.futures f g e)))
  | inr other ↦ inl (inr (ground (arith, get_elem?-cancel q.futures f g e), b.1, b.2))
]

expire-Settled : (f : ℕ) (q : Queue) → Settled q → Settled (expire f q)
expire-Settled f q s = expire_cases Settled f q s λ e. elim s [
  | inl b ↦ Blocked-cancel f q q.waiting e b
  | inr l ↦ inr (Leaving-cancel f q.futures q.waiting e l)
]

step-Settled : (e : Event) (q : Queue) → Settled q → Settled (step e q)
unfolding step abandon
step-Settled (acquires p) q s = acquire-Settled p q s
step-Settled (expires f) q s = expire-Settled f q s
step-Settled (abandons p f) q s = inl (promote-Blocked _)
step-Settled (releases l) q s = release-Settled l q s

run-Settled : (es : List Event) (q : Queue) → Settled q → Settled (run es q)
unfolding run
run-Settled [] q s = s
run-Settled (e ∷ es) q s = run-Settled es (step e q) (step-Settled e q s)

create-Settled :
    (limit max_waiting timeout : ℤ) (q : Queue)
    → create limit max_waiting timeout ≡ some q
    → Settled q
unfolding create
create-Settled limit max_waiting timeout q h =
    let e : q.waiting ≡ [] = ground arith in inl (subst (λ ws. Blocked ws q) (sym e) tt)

-- In every reachable state the request at the head of the queue really has to wait, or some waiter
-- whose future was cancelled has its handler still to run (and that handler promotes).
pub run-create-Settled :
    (limit max_waiting timeout : ℤ) (es : List Event) (q : Queue)
    → create limit max_waiting timeout ≡ some q
    → Settled (run es q)
run-create-Settled limit max_waiting timeout es q h =
    run-Settled es q (create-Settled limit max_waiting timeout q h)

idle-nobody :
    (q : Queue) (ws : List (String × ℕ)) → 1 ≤ q.limit → q.active ≡ 0 → Blocked ws q → ws ≡ []
idle-nobody q [] l a b = refl
idle-nobody q ((p, f) ∷ ws) l a (inl b) = absurd (omega arith)
idle-nobody q ((p, f) ∷ ws) l a (inr b) = absurd (omega (arith, b.1))

-- In every reachable state in which no slot is in use, nobody waits, but for requests queued
-- behind or among those whose cancelled waiters have yet to run their handler.
pub idle-empty :
    (limit max_waiting timeout : ℤ) (es : List Event) (q : Queue)
    → create limit max_waiting timeout ≡ some q
    → (run es q).active ≡ 0
    → ¬ Leaving (run es q).futures (run es q).waiting
    → (run es q).waiting ≡ []
idle-empty limit max_waiting timeout es q h a n =
    elim (run-create-Settled limit max_waiting timeout es q h) [
      | inl b ↦
          idle-nobody (run es q) (run es q).waiting
            (run-create-Inv limit max_waiting timeout es q h).some_slot a b
      | inr l ↦ absurd (n l)
    ]
