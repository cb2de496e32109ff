-- ===== src/Backends/Docker/Refinement.antt =====
-- Each operation of DockerBackend, and each sequence of them, does to the containers what `spec` says.
use dmr.Prelude.{
  ℕ, String, Bool, true, false, Option, none, some, List, [], ◌∷◌, str_eq, eq_iff, ◌≡◌, refl, sym,
  ◌∙◌, ap,
}
use mathlib.Core.Path.{subst}
use dmr.Backends.{
  Answer, not_found, api_error, value, raised, Method, pure, throw, catch, ◌>>=◌, Creation,
}
use dmr.Backends.Docker.{
  Container, Client, or_else, stop_workload, remove_workload, pause_if_running, pause_workload,
  unpause_workload, create_and_start,
}
use dmr.Backends.Docker.Phases.{
  update, update-same, IsDaemon, stopped, Op, stop, remove, pause, unpause, create, target, Allows,
  Step, Trace, perform, Meets,
}

module _ {S : Type 0} where
  attempt-value :
      (g : Method S Container) (f : Container → Method S (Unit {0})) (s s' : S) (c : Container)
      → g s ≡ (value c, s)
      → f c s ≡ (value tt, s')
      → catch (g >>= f) (or_else tt) s ≡ (value tt, s')
  unfolding catch ◌>>=◌
  attempt-value g f s s' c h k = rw (h, k) refl

  attempt-missing :
      (g : Method S Container) (f : Container → Method S (Unit {0})) (s : S) (t : String)
      → g s ≡ (raised (not_found t), s)
      → catch (g >>= f) (or_else tt) s ≡ (value tt, s)
  unfolding catch ◌>>=◌ or_else pure
  attempt-missing g f s t h = rw h refl

  attempt-refused :
      (g : Method S Container) (f : Container → Method S (Unit {0})) (s : S) (c : Container)
      (t : String)
      → g s ≡ (value c, s)
      → f c s ≡ (raised (api_error t), s)
      → catch (g >>= f) (or_else tt) s ≡ (value tt, s)
  unfolding catch ◌>>=◌ or_else pure
  attempt-refused g f s c t h k = rw (h, k) refl

module _ (network : String) (d : Client) (w : IsDaemon d) where
  open w use {status}

  -- An operation that answers and leaves the state is right if the status is to stay.
  stays :
      (op : Op) (s : d.State) (v : Option String)
      → status s (target op) ≡ v
      → perform network d op s ≡ (value tt, s)
      → Allows op v (value tt) v
      → Meets network d w op s
  stays op s v h k q = record {
    answer = value tt;
    final = s;
    outcome = k;
    step = record {
      after = v;
      allowed = subst (λ u. Allows op u (value tt) v) (sym h) q;
      moved = λ m. rw (sym h) (update-same (target op) (status s) m);
    };
  }

  moves :
      (op : Op) (s : d.State) (v u : Option String) (a : Answer (Unit {0})) (s' : d.State)
      → status s (target op) ≡ v
      → perform network d op s ≡ (a, s')
      → Allows op v a u
      → ((m : String) → status s' m ≡ update (target op) u (status s) m)
      → Meets network d w op s
  moves op s v u a s' h k q r = record {
    answer = a;
    final = s';
    outcome = k;
    step = record { after = u; allowed = subst (λ x. Allows op x a u) (sym h) q; moved = r };
  }

  stop-Meets : (n : String) (k : ℕ) (s : d.State) → Meets network d w (stop n k) s
  unfolding stop_workload
  stop-Meets n k s =
      elim (status s n) as (λ v. status s n ≡ v → Meets network d w (stop n k) s) [
        | none ↦ λ h.
            stays (stop n k) s none h
              (attempt-missing _ _ s (w.get_missing n s h).0 (w.get_missing n s h).1) (refl, refl)
        | some v ↦ λ h.
            let (c, (found, (named, _))) = w.get_found n s v h in
            let (s', (did, q)) = w.stop_moves n c k s v named h in
            moves (stop n k) s (some v) (some (stopped v)) (value tt) s' h
              (attempt-value _ _ s s' c found did) (refl, refl) q
      ]
        refl

  remove-found :
      (n v : String) (c : Container) (s : d.State) (b : Bool)
      → str_eq v "removing" ≡ b
      → status s n ≡ some v
      → d.get n s ≡ (value c, s)
      → c.name ≡ n
      → Meets network d w (remove n) s
  unfolding remove_workload
  remove-found n v c s true r h found named =
      let (t, denied) = w.remove_refused n c s named (h ∙ ap some ((eq_iff v "removing").0 r)) in
      stays (remove n) s (some v) h (attempt-refused _ _ s c t found denied) (refl, rw r refl)
  remove-found n v c s false r h found named =
      let (s', (did, q)) = w.remove_moves n c s v named h r in
      moves (remove n) s (some v) none (value tt) s' h (attempt-value _ _ s s' c found did)
        (refl, rw r refl) q

  remove-Meets : (n : String) (s : d.State) → Meets network d w (remove n) s
  unfolding remove_workload
  remove-Meets n s =
      elim (status s n) as (λ v. status s n ≡ v → Meets network d w (remove n) s) [
        | none ↦ λ h.
            stays (remove n) s none h
              (attempt-missing _ _ s (w.get_missing n s h).0 (w.get_missing n s h).1) (refl, refl)
        | some v ↦ λ h.
            let (c, (found, (named, _))) = w.get_found n s v h in
            remove-found n v c s (str_eq v "removing") refl h found named
      ]
        refl

  pause-found :
      (n v : String) (c : Container) (s : d.State) (b : Bool)
      → str_eq v "running" ≡ b
      → status s n ≡ some v
      → d.get n s ≡ (value c, s)
      → c.name ≡ n
      → c.status ≡ v
      → Meets network d w (pause n) s
  unfolding pause_workload pause_if_running pure
  pause-found n v c s true r h found named same =
      let (s', (did, q)) = w.pause_moves n c s named (h ∙ ap some ((eq_iff v "running").0 r)) in
      moves (pause n) s (some v) (some "paused") (value tt) s' h
        (attempt-value _ _ s s' c found (rw (ap (λ x. str_eq x "running") same ∙ r) did))
        (refl, rw r refl) q
  pause-found n v c s false r h found named same =
      stays (pause n) s (some v) h
        (attempt-value _ _ s s c found (rw (ap (λ x. str_eq x "running") same ∙ r) refl))
        (refl, rw r refl)

  pause-Meets : (n : String) (s : d.State) → Meets network d w (pause n) s
  unfolding pause_workload
  pause-Meets n s =
      elim (status s n) as (λ v. status s n ≡ v → Meets network d w (pause n) s) [
        | none ↦ λ h.
            stays (pause n) s none h
              (attempt-missing _ _ s (w.get_missing n s h).0 (w.get_missing n s h).1) (refl, refl)
        | some v ↦ λ h.
            let (c, (found, (named, same))) = w.get_found n s v h in
            pause-found n v c s (str_eq v "running") refl h found named same
      ]
        refl

  unpause-found :
      (n v : String) (c : Container) (s : d.State) (b : Bool)
      → str_eq v "paused" ≡ b
      → status s n ≡ some v
      → d.get n s ≡ (value c, s)
      → c.name ≡ n
      → Meets network d w (unpause n) s
  unfolding unpause_workload
  unpause-found n v c s true r h found named =
      let (s', (did, q)) = w.unpause_moves n c s named (h ∙ ap some ((eq_iff v "paused").0 r)) in
      moves (unpause n) s (some v) (some "running") (value tt) s' h
        (attempt-value _ _ s s' c found did) (refl, rw r refl) q
  unpause-found n v c s false r h found named =
      let (t, denied) = w.unpause_refused n c s v named h r in
      stays (unpause n) s (some v) h (attempt-refused _ _ s c t found denied) (refl, rw r refl)

  unpause-Meets : (n : String) (s : d.State) → Meets network d w (unpause n) s
  unfolding unpause_workload
  unpause-Meets n s =
      elim (status s n) as (λ v. status s n ≡ v → Meets network d w (unpause n) s) [
        | none ↦ λ h.
            stays (unpause n) s none h
              (attempt-missing _ _ s (w.get_missing n s h).0 (w.get_missing n s h).1) (refl, refl)
        | some v ↦ λ h.
            let (c, (found, (named, _))) = w.get_found n s v h in
            unpause-found n v c s (str_eq v "paused") refl h found named
      ]
        refl

  rethrown :
      (m : Method d.State (Unit {0})) (s s' : d.State) (a : Answer (Unit {0}))
      → m s ≡ (a, s')
      → catch m throw s ≡ (a, s')
  unfolding catch throw
  rethrown m s s' (value x) h = rw h refl
  rethrown m s s' (raised x) h = rw h refl

  create-Meets : (c : Creation) (s : d.State) → Meets network d w (create c) s
  unfolding create_and_start
  create-Meets c s =
      elim (status s c.name) as (λ v. status s c.name ≡ v → Meets network d w (create c) s) [
        | none ↦ λ h.
            let (a, (s', (v, (did, (launched, q))))) = w.run_moves network c s h in
            moves (create c) s none v a s' h (rethrown _ s s' a did) launched q
        | some v ↦ λ h.
            let (t, denied) = w.run_refused network c s v h in
            moves (create c) s (some v) (some v) (raised (api_error t)) s h
              (rethrown _ s s (raised (api_error t)) denied) (refl, refl)
              (λ m. rw (sym h) (update-same c.name (status s) m))
      ]
        refl

  pub perform-Meets : (op : Op) (s : d.State) → Meets network d w op s
  perform-Meets (stop n k) s = stop-Meets n k s
  perform-Meets (remove n) s = remove-Meets n s
  perform-Meets (pause n) s = pause-Meets n s
  perform-Meets (unpause n) s = unpause-Meets n s
  perform-Meets (create c) s = create-Meets c s

-- A sequence of operations, in order, as one after the other is called: the answers and what is left.
abbrev pub perform_all :
    (network : String) (d : Client) → List Op → d.State → List (Answer (Unit {0})) × d.State
perform_all network d [] s = ([], s)
perform_all network d (op ∷ ops) s =
    let r = perform network d op s in
    let rest = perform_all network d ops r.1 in (r.0 ∷ rest.0, rest.1)

-- With a daemon that keeps its documented behaviour and has no internal error, any sequence of stop, remove, pause, unpause and create
-- answers and leaves the containers as the relation `Trace` says: each operation changes the status of its own
-- container only; a stop ends what runs, restarts or is paused; a removal takes the container away unless that is
-- under way; a pause pauses what runs, an unpause resumes what is paused; and only a creation raises, where the name is
-- taken or containers.run fails, and then it leaves the container there was, or none, or one that is not started.
pub perform_all-refines :
    (network : String) (d : Client) (w : IsDaemon d) (ops : List Op) (s : d.State)
    → Trace ops
        (w.status s)
        (perform_all network d ops s).0
        (w.status (perform_all network d ops s).1)
perform_all-refines network d w [] s = refl
perform_all-refines network d w (op ∷ ops) s =
    let r = perform-Meets network d w op s in
    (
      w.status (perform network d op s).1,
      (
        subst (λ p. Step op (w.status s) p.0 (w.status p.1)) (sym r.outcome) r.step,
        perform_all-refines network d w ops (perform network d op s).1,
      ),
    )
