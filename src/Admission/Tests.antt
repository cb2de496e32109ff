-- ===== src/Admission/Tests.antt =====
-- Runs of gateway/admission.py's queue, and instances of its theorems.
use dmr.Prelude.{Bool, ◌≡◌, refl, Option, some, List, [], ◌∷◌, pos}
use dmr.Admission.{
  Queue, Event, acquires, expires, abandons, releases, create, grant, promote_loop, Future, promote,
  serve, verdict, release, vacate, acquire, has_room, expire, give_up, remove_entry, abandon, step,
  run,
}
use dmr.Admission.Invariant.{Inv, run-create-Inv}
use dmr.Admission.Progress.{Settled, Leaving, run-create-Settled}
use dmr.Admission.Order.{InOrder, acquire-InOrder}

abbrev fresh : Queue
fresh = record {
  limit = 1;
  max_waiting = 2;
  active = 0;
  profile = Option.none;
  waiting = [];
  futures = [];
  leases = [];
}

-- One slot: `a` runs, `b` and a second `a` wait, a fourth request is refused.
abbrev rush : List Event
rush = acquires "a" ∷ acquires "b" ∷ acquires "a" ∷ acquires "c" ∷ []

-- The waiter for `b` times out, and `a` is released before its handler runs.
abbrev race : List Event
race =
    acquires "a"
    ∷ acquires "b"
    ∷ acquires "a"
    ∷ expires 0
    ∷ releases 0
    ∷ abandons "b" 0
    ∷ releases 1
    ∷ []

abbrev crowded : Queue
crowded = record {
  limit = 1;
  max_waiting = 2;
  active = 1;
  profile = some "a";
  waiting = ("b", 0) ∷ ("a", 1) ∷ [];
  futures = Future.pending ∷ Future.pending ∷ [];
  leases = record { released = Bool.false; granted_for = "a" } ∷ [];
}

rush_runs : run rush fresh ≡ crowded
unfolding run step acquire has_room grant
rush_runs = refl

served_b : (run (releases 0 ∷ []) crowded).profile ≡ some "b"
unfolding run step release vacate promote promote_loop verdict serve grant
served_b = refl

race_ends : (run race fresh).active ≡ 0
unfolding run step acquire has_room grant release vacate promote promote_loop verdict serve expire
    abandon give_up remove_entry
race_ends = refl

created : create (pos 1) (pos 2) (pos 600) ≡ some fresh
unfolding create
created = refl

run-create-Inv_example : Inv (run race fresh)
run-create-Inv_example = run-create-Inv (pos 1) (pos 2) (pos 600) race fresh created

run-create-Settled_example : Settled (run race fresh)
run-create-Settled_example = run-create-Settled (pos 1) (pos 2) (pos 600) race fresh created

nobody_leaves : ¬ Leaving (run race fresh).futures (run race fresh).waiting
unfolding run step acquire has_room grant release vacate promote promote_loop verdict serve expire
    abandon give_up remove_entry
nobody_leaves h = h

acquire-InOrder_example : InOrder crowded "a" (acquire "a" crowded).0 (acquire "a" crowded).1
acquire-InOrder_example = acquire-InOrder "a" crowded
