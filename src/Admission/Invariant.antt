-- ===== src/Admission/Invariant.antt =====
-- The invariant of gateway/admission.py's queue: slots, profile and waiting list.
use dmr.Prelude.{
  ℕ, zero, suc, ◌+◌, ◌-◌, ◌≤◌, ◌<◌, String, ◌≡◌, refl, true, false, Option, none, some, List, [],
  ◌∷◌, ◌++◌, arith, eq_iff, length, length-append, get_elem?, ℤ, inl, inr, if◌then◌else◌,
  zero_or_pos, leb,
}
use dmr.Admission.Loop.{
  promote_loop_rule, release_cases, acquire_cases, expire_cases, give_up_cases, cancel, enqueue,
}
use dmr.Admission.{
  Queue, Lease, Event, acquires, expires, abandons, releases, create, grant, is_profile, serve,
  mark, admit, verdict, promote_loop, promote, vacate, release, has_room, acquire, remove_entry,
  give_up, abandon, step, run,
}

-- The leases that are still held.
pub live : List Lease → ℕ
live [] = 0
live (x ∷ xs) = if x.released then live xs else live xs + 1

-- Every lease that is still held was granted for the profile `o`.
abbrev pub HeldFor : Option String → List Lease → Type 0
HeldFor o [] = Unit {0}
HeldFor o (x ∷ xs) = (x.released ≡ false → o ≡ some x.granted_for) × HeldFor o xs

pub record Inv (q : Queue) : Type 0 where
  pub some_slot : 1 ≤ q.limit
  pub within : q.active ≤ q.limit
  pub counted : live q.leases ≡ q.active
  pub one_profile : HeldFor q.profile q.leases
  pub idle : q.active ≡ 0 → q.profile ≡ none
  pub bounded : length q.waiting ≤ q.max_waiting

live-snoc :
    (xs : List Lease) (p : String)
    → live (xs ++ record { released = false; granted_for = p } ∷ []) ≡ live xs + 1
unfolding live
live-snoc [] p = omega arith
live-snoc (x ∷ xs) p = ground (arith, live-snoc xs p)

HeldFor-snoc :
    (o : Option String) (xs : List Lease) (p : String)
    → HeldFor o xs
    → o ≡ some p
    → HeldFor o (xs ++ record { released = false; granted_for = p } ∷ [])
HeldFor-snoc o [] p h e = (λ _. e, tt)
HeldFor-snoc o (x ∷ xs) p h e = (h.0, HeldFor-snoc o xs p h.1 e)

-- When nothing is held, every profile fits.
HeldFor-dead : (o : Option String) (xs : List Lease) → live xs ≡ 0 → HeldFor o xs
unfolding live
HeldFor-dead o [] h = tt
HeldFor-dead o (x ∷ xs) h = (λ e. ground arith, HeldFor-dead o xs (ground arith))

HeldFor-mark : (o : Option String) (xs : List Lease) (l : ℕ) → HeldFor o xs → HeldFor o (mark xs l)
unfolding mark
HeldFor-mark o [] l h = tt
HeldFor-mark o (x ∷ xs) zero h = (λ e. cc, h.1)
HeldFor-mark o (x ∷ xs) (suc l) h = (h.0, HeldFor-mark o xs l h.1)

live-mark :
    (xs : List Lease) (l : ℕ) (x : Lease)
    → get_elem? xs l ≡ some x
    → x.released ≡ false
    → live (mark xs l) + 1 ≡ live xs
unfolding mark live
live-mark [] l x h e = cc
live-mark (y ∷ xs) zero x h e = ground arith
live-mark (y ∷ xs) (suc l) x h e = ground (arith, live-mark xs l x h e)

-- A waiter may be admitted: there is room, and the batch is empty or of its profile.
pub record Fits (p : String) (q : Queue) : Type 0 where
  pub room : q.active < q.limit
  pub same : 0 < q.active → q.profile ≡ some p

grant-HeldFor : (p : String) (q : Queue) → Inv q → Fits p q → HeldFor (some p) q.leases
grant-HeldFor p q v f = elim (zero_or_pos q.active) [
  | inl e ↦ HeldFor-dead (some p) q.leases (omega arith)
  | inr h ↦ rw (f.same h) at v.one_profile
]

grant-Inv : (p : String) (q : Queue) → Inv q → Fits p q → Inv (grant p q)
unfolding grant
grant-Inv p q v f = record {
  some_slot = v.some_slot;
  within = omega (arith, f.room);
  counted = omega (arith, live-snoc q.leases p, v.counted);
  one_profile = HeldFor-snoc (some p) q.leases p (grant-HeldFor p q v f) refl;
  idle = λ e. absurd (omega arith);
  bounded = v.bounded;
}

serve-Inv : (p : String) (f : ℕ) (q : Queue) → Inv q → Fits p q → Inv (serve p f q)
unfolding serve grant
serve-Inv p f q v h =
    let g = grant-Inv p q v h in
    record {
      some_slot = g.some_slot;
      within = g.within;
      counted = g.counted;
      one_profile = g.one_profile;
      idle = g.idle;
      bounded = g.bounded;
    }

is_profile-eq : (o : Option String) (p : String) → is_profile o p ≡ true → o ≡ some p
unfolding is_profile
is_profile-eq none p h = cc
is_profile-eq (some x) p h = ground (arith, eq_iff x p)

verdict-Fits : (p : String) (f : ℕ) (q : Queue) → verdict p f q ≡ admit → Fits p q
unfolding verdict
verdict-Fits p f q h = record {
  room = ground arith;
  same = λ a. ground (arith, is_profile-eq q.profile p);
}

promote_loop-Inv :
    (ws : List (String × ℕ)) (q : Queue)
    → Inv q × (length ws ≤ q.max_waiting)
    → Inv (promote_loop ws q)
promote_loop-Inv =
    promote_loop_rule (λ ws q. Inv q × (length ws ≤ q.max_waiting)) Inv (λ q j. ground (arith, j.0))
      (λ p f ws q j e. ground (arith, j.0)) (λ p f ws q j e. (j.0, omega arith))
      (λ p f ws q j e.
        unfold serve grant in (serve-Inv p f q j.0 (verdict-Fits p f q e), omega arith))

promote-Inv : (q : Queue) → Inv q → Inv (promote q)
unfolding promote
promote-Inv q v = promote_loop-Inv q.waiting q (v, v.bounded)

vacate-Inv :
    (l : ℕ) (x : Lease) (q : Queue)
    → get_elem? q.leases l ≡ some x
    → x.released ≡ false
    → Inv q
    → Inv (vacate l q)
unfolding vacate
vacate-Inv l x q h e v = record {
  some_slot = v.some_slot;
  within = omega (arith, v.within);
  counted = omega (arith, left, v.counted);
  one_profile = elim (zero_or_pos (q.active - 1)) [
    | inl z ↦ HeldFor-dead _ (mark q.leases l) (omega (arith, left, v.counted))
    | inr n ↦ ground (arith, HeldFor-mark q.profile q.leases l v.one_profile)
  ];
  idle = λ z. ground arith;
  bounded = v.bounded;
}
  where
    left : live (mark q.leases l) + 1 ≡ live q.leases
    left = live-mark q.leases l x h e

release-Inv : (l : ℕ) (q : Queue) → Inv q → Inv (release l q)
release-Inv l q v =
    release_cases Inv l q v λ x h e. promote-Inv (vacate l q) (vacate-Inv l x q h e v)

has_room-Fits : (p : String) (q : Queue) → has_room p q ≡ true → Fits p q
unfolding has_room
has_room-Fits p q h = record {
  room = ground arith;
  same = λ a. ground (arith, is_profile-eq q.profile p);
}

enqueue-Inv :
    (p : String) (q : Queue)
    → Inv q
    → leb q.max_waiting (length q.waiting) ≡ false
    → Inv (enqueue p q)
enqueue-Inv p q v m = record {
  some_slot = v.some_slot;
  within = v.within;
  counted = v.counted;
  one_profile = v.one_profile;
  idle = v.idle;
  bounded = ground (arith, length-append q.waiting ((p, length q.futures) ∷ []));
}

acquire-Inv : (p : String) (q : Queue) → Inv q → Inv (acquire p q).1
acquire-Inv p q v =
    acquire_cases Inv p q v (λ r. grant-Inv p q v (has_room-Fits p q r))
      (λ r m. enqueue-Inv p q v m)

cancel-Inv : (f : ℕ) (q : Queue) → Inv q → Inv (cancel f q)
cancel-Inv f q v = ground arith

length-remove_entry :
    (p : String) (f : ℕ) (ws : List (String × ℕ)) → length (remove_entry p f ws) ≤ length ws
unfolding remove_entry
length-remove_entry p f [] = omega arith
length-remove_entry p f ((o, g) ∷ ws) = ground (arith, length-remove_entry p f ws)

give_up-Inv : (f : ℕ) (q : Queue) → Inv q → Inv (give_up f q)
give_up-Inv f q v = give_up_cases Inv f q (cancel-Inv f q v) (λ l e. release-Inv l q v)

abandon-Inv : (p : String) (f : ℕ) (q : Queue) → Inv q → Inv (abandon p f q)
unfolding abandon
abandon-Inv p f q v =
    let g = give_up-Inv f q v in
    promote-Inv _ (record {
      some_slot = g.some_slot;
      within = g.within;
      counted = g.counted;
      one_profile = g.one_profile;
      idle = g.idle;
      bounded = omega (arith, g.bounded, length-remove_entry p f (give_up f q).waiting);
    })

pub step-Inv : (e : Event) (q : Queue) → Inv q → Inv (step e q)
unfolding step
step-Inv (acquires p) q v = acquire-Inv p q v
step-Inv (expires f) q v = expire_cases Inv f q v (λ e. cancel-Inv f q v)
step-Inv (abandons p f) q v = abandon-Inv p f q v
step-Inv (releases l) q v = release-Inv l q v

pub run-Inv : (es : List Event) (q : Queue) → Inv q → Inv (run es q)
unfolding run
run-Inv [] q v = v
run-Inv (e ∷ es) q v = run-Inv es (step e q) (step-Inv e q v)

create-Inv :
    (limit max_waiting timeout : ℤ) (q : Queue) → create limit max_waiting timeout ≡ some q → Inv q
unfolding create live
create-Inv limit max_waiting timeout q h = ground arith

-- From a constructed queue, whatever the callers do: at most `limit` leases are held, their number
-- is `active`, they are all of the one active profile, an idle queue has no profile, and no more
-- than `max_waiting` requests wait.
pub run-create-Inv :
    (limit max_waiting timeout : ℤ) (es : List Event) (q : Queue)
    → create limit max_waiting timeout ≡ some q
    → Inv (run es q)
run-create-Inv limit max_waiting timeout es q h =
    run-Inv es q (create-Inv limit max_waiting timeout q h)
