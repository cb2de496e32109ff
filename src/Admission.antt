-- ===== src/Admission.antt =====
-- gateway/admission.py: the FIFO admission queue and its leases.
-- The asyncio loop runs one callback at a time, so each function below is one uninterrupted step.
-- Futures and leases are objects shared by the queue and the waiting tasks: they live in two
-- stores, and their addresses are positions in them.
mod Loop
pub mod Invariant
pub mod Progress
pub mod Order
mod Tests
use dmr.Prelude.{
  ℕ, zero, suc, ◌+◌, ◌-◌, String, Bool, true, false, ◌&&◌, ◌||◌, Option, none, some, List, [], ◌∷◌,
  ◌++◌, ltb, leb, ◌==◌, str_eq, if◌then◌else◌, length, get_elem?, set, not, ℤ, pos, pos_part, ltb_ℤ,
}

-- asyncio.Future: not done, cancelled, or done with the lease at an address.
pub data Future : Type 0 where
  pending : Future
  cancelled : Future
  granted : ℕ → Future

-- `granted_for` is the argument of the `_grant` that made the lease; no operation reads it.
pub record Lease : Type 0 where
  pub released : Bool
  pub granted_for : String

pub record Queue : Type 0 where
  pub limit : ℕ
  pub max_waiting : ℕ
  pub active : ℕ
  pub profile : Option String
  pub waiting : List (String × ℕ)
  pub futures : List Future
  pub leases : List Lease

-- The constructor; `timeout` is in milliseconds. `none` is the ValueError.
pub create : ℤ → ℤ → ℤ → Option Queue
create limit max_waiting timeout =
    if ltb_ℤ limit (pos 1) || ltb_ℤ max_waiting (pos 0) || not (ltb_ℤ (pos 0) timeout)
    then none
    else some (record {
      limit = pos_part limit;
      max_waiting = pos_part max_waiting;
      active = 0;
      profile = none;
      waiting = [];
      futures = [];
      leases = [];
    })

-- _grant: the new lease is the last of the store.
pub grant : String → Queue → Queue
grant p q = record q {
  active = q.active + 1;
  profile = some p;
  leases = q.leases ++ record { released = false; granted_for = p } ∷ [];
}

-- self.profile == p, on an optional profile.
pub is_profile : Option String → String → Bool
is_profile none p = false
is_profile (some o) p = str_eq o p

-- future.set_result(self._grant(profile))
pub serve : String → ℕ → Queue → Queue
serve p f q =
    let g = grant p q in record g { futures = set q.futures f (granted (length q.leases)) }

pub is_empty {ℓ} : {A : Type ℓ} → List A → Bool
is_empty [] = true
is_empty (x ∷ xs) = false

-- self.released = True, on the lease at an address.
pub mark : List Lease → ℕ → List Lease
mark [] l = []
mark (x ∷ xs) zero = record x { released = true } ∷ xs
mark (x ∷ xs) (suc l) = x ∷ mark xs l

pub is_pending : Option Future → Bool
is_pending (some pending) = true
is_pending _ = false

-- One round of _promote's loop, for the head of `_waiting`.
pub data Verdict : Type 0 where
  halt skip admit : Verdict

pub verdict : String → ℕ → Queue → Verdict
unfolding is_profile is_pending
verdict p f q =
    if ltb q.active q.limit
    then (if is_pending (get_elem? q.futures f)
        then (if ltb 0 q.active && not (is_profile q.profile p) then halt else admit)
        else skip)
    else halt

-- The loop of _promote: `halt` is its condition or its break, and leaves the head in place.
pub promote_loop : List (String × ℕ) → Queue → Queue
promote_loop [] q = record q { waiting = [] }
promote_loop ((p, f) ∷ ws) q = elim (verdict p f q) [
  | halt ↦ record q { waiting = (p, f) ∷ ws }
  | skip ↦ promote_loop ws q
  | admit ↦ promote_loop ws (serve p f q)
]

pub promote : Queue → Queue
promote q = promote_loop q.waiting q

-- One slot less in use; the last one to leave forgets the profile.
pub vacate : ℕ → Queue → Queue
unfolding mark
vacate l q =
    let n = q.active - 1 in
    record q { active = n; profile = if n == 0 then none else q.profile; leases = mark q.leases l }

-- Lease.release, for the lease at address `l`.
pub release : ℕ → Queue → Queue
release l q = elim (get_elem? q.leases l) [
  | none ↦ q
  | some lease ↦ if lease.released then q else promote (vacate l q)
]

pub data Outcome : Type 0 where
  leased : ℕ → Outcome
  queue_full : Outcome
  waits : ℕ → Outcome

pub has_room : String → Queue → Bool
unfolding is_profile is_empty
has_room p q =
    is_empty q.waiting && ltb q.active q.limit && (q.active == 0 || is_profile q.profile p)

-- acquire, up to the point where it returns, raises or starts to wait on its future.
pub acquire : String → Queue → Outcome × Queue
acquire p q =
    if has_room p q
    then (leased (length q.leases), grant p q)
    else if leb q.max_waiting (length q.waiting)
    then (queue_full, q)
    else (
      waits (length q.futures),
      record q {
        waiting = q.waiting ++ (p, length q.futures) ∷ [];
        futures = q.futures ++ pending ∷ [];
      },
    )

-- asyncio.wait_for gives up: it cancels the future, which has no effect on one that is done.
pub expire : ℕ → Queue → Queue
expire f q = elim (get_elem? q.futures f) [
  | some pending ↦ record q { futures = set q.futures f cancelled }
  | _ ↦ q
]

-- `self._waiting.remove(entry)` under its guard.
pub remove_entry : String → ℕ → List (String × ℕ) → List (String × ℕ)
remove_entry p f [] = []
remove_entry p f ((o, g) ∷ ws) = if str_eq o p && g == f then ws else (o, g) ∷ remove_entry p f ws

-- The first half of the handler: give a granted slot back, or cancel the future.
pub give_up : ℕ → Queue → Queue
give_up f q = elim (get_elem? q.futures f) [
  | some (granted l) ↦ release l q
  | _ ↦ record q { futures = set q.futures f cancelled }
]

-- The `except BaseException` handler of acquire, in the task that waits on `f` for profile `p`.
pub abandon : String → ℕ → Queue → Queue
abandon p f q = let g = give_up f q in promote (record g { waiting = remove_entry p f g.waiting })

-- What the event loop can run next. A waiter whose future is done merely returns its lease.
pub data Event : Type 0 where
  acquires : String → Event
  expires : ℕ → Event
  abandons : String → ℕ → Event
  releases : ℕ → Event

pub step : Event → Queue → Queue
step (acquires p) q = (acquire p q).1
step (expires f) q = expire f q
step (abandons p f) q = abandon p f q
step (releases l) q = release l q

pub run : List Event → Queue → Queue
run [] q = q
run (e ∷ es) q = run es (step e q)
