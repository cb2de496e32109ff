-- ===== src/Admission/Order.antt =====
-- Order of service in gateway/admission.py's queue, and what becomes of one lease or one waiter.
use mathlib.Core.List.{append_assoc}
use dmr.Prelude.{
  ℕ, zero, suc, ◌≤◌, ◌<◌, String, ◌≡◌, refl, ◌⊎◌, inl, inr, true, false, Option, none, some, List,
  [], ◌∷◌, ◌++◌, arith, length, get_elem?, get_elem?-set_self, get_elem?-set_ne,
  get_elem?-append_old, set, Bool-cases, leb,
}
use dmr.Admission.{
  Queue, Future, Lease, pending, cancelled, granted, Outcome, leased, queue_full, waits, is_pending,
  admit, skip, verdict, serve, grant, mark, promote, vacate, release, has_room, acquire, give_up,
  abandon,
}
use dmr.Admission.Loop.{promote_loop_rule}
use dmr.Admission.Progress.{has_room-empty}

-- None of these entries' futures is pending.
abbrev pub Finished : List Future → List (String × ℕ) → Type 0
Finished fs [] = Unit {0}
Finished fs ((p, f) ∷ ws) = (is_pending (get_elem? fs f) ≡ false) × Finished fs ws

set_granted-finishes :
    (fs : List Future) (f g l : ℕ)
    → (f ≡ g) ⊎ (is_pending (get_elem? fs g) ≡ false)
    → is_pending (get_elem? (set fs f (granted l)) g) ≡ false
unfolding is_pending
set_granted-finishes [] f g l h = refl
set_granted-finishes (x ∷ fs) zero zero l h = refl
set_granted-finishes (x ∷ fs) zero (suc g) l (inl e) = absurd (omega arith)
set_granted-finishes (x ∷ fs) zero (suc g) l (inr e) = e
set_granted-finishes (x ∷ fs) (suc f) zero l (inl e) = absurd (omega arith)
set_granted-finishes (x ∷ fs) (suc f) zero l (inr e) = e
set_granted-finishes (x ∷ fs) (suc f) (suc g) l (inl e) =
    set_granted-finishes fs f g l (inl (omega arith))
set_granted-finishes (x ∷ fs) (suc f) (suc g) l (inr e) = set_granted-finishes fs f g l (inr e)

Finished-set :
    (fs : List Future) (f l : ℕ) (ws : List (String × ℕ))
    → Finished fs ws
    → Finished (set fs f (granted l)) ws
Finished-set fs f l [] h = tt
Finished-set fs f l ((p, g) ∷ ws) h =
    (set_granted-finishes fs f g l (inr h.0), Finished-set fs f l ws h.1)

Finished-snoc :
    (fs : List Future) (ws : List (String × ℕ)) (p : String) (f : ℕ)
    → Finished fs ws
    → is_pending (get_elem? fs f) ≡ false
    → Finished fs (ws ++ (p, f) ∷ [])
Finished-snoc fs [] p f h e = (e, tt)
Finished-snoc fs ((o, g) ∷ ws) p f h e = (h.0, Finished-snoc fs ws p f h.1 e)

verdict_skip-finished :
    (p : String) (f : ℕ) (q : Queue)
    → verdict p f q ≡ skip
    → is_pending (get_elem? q.futures f) ≡ false
unfolding verdict
verdict_skip-finished p f q h = ground arith

-- The entries taken off the queue stood in front of all that is left, and are finished.
abbrev pub Served : List (String × ℕ) → List (String × ℕ) → Queue → Type 0
Served before after q =
    (gone : List (String × ℕ)) × (before ≡ gone ++ after) × Finished q.futures gone

Served-skip :
    (ws : List (String × ℕ)) (p : String) (f : ℕ) (rest : List (String × ℕ)) (q : Queue)
    → Served ws ((p, f) ∷ rest) q
    → verdict p f q ≡ skip
    → Served ws rest q
Served-skip ws p f rest q (gone, e, d) h = (
  gone ++ (p, f) ∷ [],
  rw (append_assoc gone ((p, f) ∷ []) rest) e,
  Finished-snoc q.futures gone p f d (verdict_skip-finished p f q h),
)

Served-serve :
    (ws : List (String × ℕ)) (p : String) (f : ℕ) (rest : List (String × ℕ)) (q : Queue)
    → Served ws ((p, f) ∷ rest) q
    → Served ws rest (serve p f q)
unfolding serve grant
Served-serve ws p f rest q (gone, e, d) =
    let l = length q.leases in
    (
      gone ++ (p, f) ∷ [],
      rw (append_assoc gone ((p, f) ∷ []) rest) e,
      Finished-snoc _ gone p f (Finished-set q.futures f l gone d)
          (set_granted-finishes q.futures f f l (inl refl)),
    )

-- `_promote` serves in FIFO order: it splits the queue into a front, of which every entry is served
-- or was already done, and the rest, which keeps its order.
pub promote_fifo : (q : Queue) → Served q.waiting (promote q).waiting (promote q)
unfolding promote
promote_fifo q =
    promote_loop_rule (λ ws r. Served q.waiting ws r) (λ r. Served q.waiting r.waiting r) (λ r j. j)
      (λ p f ws r j e. j) (λ p f ws r j e. Served-skip q.waiting p f ws r j e)
      (λ p f ws r j e. Served-serve q.waiting p f ws r j) q.waiting q ([], refl, tt)

-- A new request never overtakes: it gets a slot at once only when nobody waits; otherwise it goes
-- to the end of the queue, or, if `max_waiting` already wait, is refused and changes nothing.
abbrev pub InOrder : Queue → String → Outcome → Queue → Type 0
InOrder q p (leased l) r = (q.waiting ≡ []) × (r ≡ grant p q)
InOrder q p queue_full r = (q.max_waiting ≤ length q.waiting) × (r ≡ q)
InOrder q p (waits f) r =
    (r.waiting ≡ q.waiting ++ (p, f) ∷ [])
    × (r.leases ≡ q.leases)
    × (r.active ≡ q.active)
    × (length q.waiting < q.max_waiting)

pub acquire-InOrder : (p : String) (q : Queue) → InOrder q p (acquire p q).0 (acquire p q).1
unfolding acquire
acquire-InOrder p q = elim (Bool-cases (has_room p q)) [
  | inl r ↦ rw r (has_room-empty p q r, refl)
  | inr r ↦ elim (Bool-cases (leb q.max_waiting (length q.waiting))) [
    | inl m ↦ rw (r, m) (ground arith, refl)
    | inr m ↦ rw (r, m) (refl, refl, refl, ground arith)
  ]
]

-- Leases are only ever added.
promote_lease :
    (q : Queue) (l : ℕ) (x : Lease)
    → get_elem? q.leases l ≡ some x
    → get_elem? (promote q).leases l ≡ some x
unfolding promote
promote_lease q l x h =
    promote_loop_rule (λ ws r. get_elem? r.leases l ≡ some x) (λ r. get_elem? r.leases l ≡ some x)
      (λ r j. j) (λ p f ws r j e. j) (λ p f ws r j e. j)
      (λ p f ws r j e. unfold serve grant in get_elem?-append_old r.leases _ l x j) q.waiting q h

get_elem?-mark :
    (xs : List Lease) (l : ℕ) (x : Lease)
    → get_elem? xs l ≡ some x
    → get_elem? (mark xs l) l ≡ some (record x { released = true })
unfolding mark
get_elem?-mark [] l x h = cc
get_elem?-mark (y ∷ xs) zero x h = ground arith
get_elem?-mark (y ∷ xs) (suc l) x h = get_elem?-mark xs l x h

-- A lease that exists is released after `release`.
pub release_marks :
    (l : ℕ) (q : Queue) (x : Lease)
    → get_elem? q.leases l ≡ some x
    → get_elem? (release l q).leases l ≡ some (record x { released = true })
unfolding release
release_marks l q x h = elim (Bool-cases x.released) [
  | inl r ↦ rw (h, release, r) (ground (arith, h))
  | inr r ↦
      rw (h, release, r)
        (promote_lease (vacate l q) l _ (unfold vacate in get_elem?-mark q.leases l x h))
]

release_missing : (l : ℕ) (q : Queue) → get_elem? q.leases l ≡ none → release l q ≡ q
unfolding release
release_missing l q h = rw (h, release)

release_done :
    (l : ℕ) (q : Queue) (x : Lease)
    → get_elem? q.leases l ≡ some x
    → x.released ≡ true
    → release l q ≡ q
unfolding release
release_done l q x h r = rw (h, release, r)

-- Releasing a lease a second time does nothing, also after the first release has promoted waiters.
pub release_twice : (l : ℕ) (q : Queue) → release l (release l q) ≡ release l q
release_twice l q = go (get_elem? q.leases l) refl
  where
    go : (o : Option Lease) → get_elem? q.leases l ≡ o → release l (release l q) ≡ release l q
    go none e = rw (release_missing l q e) (release_missing l q e)
    go (some x) e = release_done l (release l q) _ (release_marks l q x e) refl

verdict_admit-pending :
    (p : String) (f : ℕ) (q : Queue) → verdict p f q ≡ admit → get_elem? q.futures f ≡ some pending
unfolding verdict is_pending
verdict_admit-pending p f q h = ground arith

-- A cancelled future stays cancelled, so its request is never admitted.
promote_cancelled :
    (q : Queue) (f : ℕ)
    → get_elem? q.futures f ≡ some cancelled
    → get_elem? (promote q).futures f ≡ some cancelled
unfolding promote
promote_cancelled q f h =
    promote_loop_rule (λ ws r. get_elem? r.futures f ≡ some cancelled)
      (λ r. get_elem? r.futures f ≡ some cancelled) (λ r j. j) (λ p g ws r j e. j)
      (λ p g ws r j e. j)
      (λ p g ws r j e.
        unfold serve grant in
        (rw
          (get_elem?-set_ne r.futures g f (granted (length r.leases))
            (λ same. cc (j, verdict_admit-pending p g r e, same)))
          j))
      q.waiting q h

-- What becomes of future `f` (`o` before) when the queue goes from `q` to `r`.
abbrev pub Freed : Option Future → ℕ → Queue → Queue → Type 0
Freed none f q r = Unit {0}
Freed (some pending) f q r = get_elem? r.futures f ≡ some cancelled
Freed (some cancelled) f q r = get_elem? r.futures f ≡ some cancelled
Freed (some (granted l)) f q r =
    (x : Lease)
    → get_elem? q.leases l ≡ some x
    → get_elem? r.leases l ≡ some (record x { released = true })

-- A waiter that gives up keeps nothing: if its future was not done it is cancelled for good, and if
-- it had been granted a lease in the meantime, that lease is released.
pub abandon_keeps_nothing :
    (p : String) (f : ℕ) (q : Queue) (o : Option Future)
    → get_elem? q.futures f ≡ o
    → Freed o f q (abandon p f q)
unfolding abandon give_up
abandon_keeps_nothing p f q none e = tt
abandon_keeps_nothing p f q (some pending) e =
    promote_cancelled _ f (rw (e, give_up) (get_elem?-set_self q.futures f cancelled pending e))
abandon_keeps_nothing p f q (some cancelled) e =
    promote_cancelled _ f (rw (e, give_up) (get_elem?-set_self q.futures f cancelled cancelled e))
abandon_keeps_nothing p f q (some (granted l)) e =
    λ x h. promote_lease _ l _ (rw (e, give_up) (release_marks l q x h))
