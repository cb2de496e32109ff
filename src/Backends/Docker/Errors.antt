-- ===== src/Backends/Docker/Errors.antt =====
-- What DockerBackend lets through of the errors of the Docker SDK.
use dmr.Prelude.{ℕ, String, [], ◌≡◌, refl, Option, none, Bool, true, false, List}
use dmr.Backends.{
  Failure, not_found, api_error, other, Answer, value, raised, Method, pure, throw, on_failure,
  catch,
}
use dmr.Backends.Docker.{
  Client, or_else, exec_failed, get_workload, stop_workload, remove_workload, pause_workload,
  unpause_workload, exec_in_workload, list_workloads, ensure_network,
}

-- Raised, if at all, is something that the SDK does not document: no APIError and no NotFound.
abbrev pub IsContained : {A : Type 0} → Answer A → Type 0
IsContained (value a) = Unit
IsContained (raised (not_found t)) = ⊥
IsContained (raised (api_error t)) = ⊥
IsContained (raised (other t)) = Unit

module _ {S A : Type 0} where
  -- A handler that itself raises nothing but other errors contains those of any method.
  catch-IsContained :
      (m : Method S A) (h : Failure → Method S A) (s : S)
      → ((x : Failure) (u : S) → IsContained (h x u).0)
      → IsContained (catch m h s).0
  unfolding catch
  catch-IsContained m h s k = handled (m s)
    where
      handled : (r : Answer A × S) → IsContained (on_failure h r).0
      handled (value a, u) = tt
      handled (raised x, u) = k x u

  or_else-IsContained : (a : A) (x : Failure) (u : S) → IsContained (or_else a x u).0
  unfolding or_else pure throw
  or_else-IsContained a (not_found t) u = tt
  or_else-IsContained a (api_error t) u = tt
  or_else-IsContained a (other t) u = tt

exec_failed-IsContained :
    {S : Type 0} (n : String) (x : Failure) (u : S) → IsContained (exec_failed n x u).0
unfolding exec_failed pure throw
exec_failed-IsContained n (not_found t) u = tt
exec_failed-IsContained n (api_error t) u = tt
exec_failed-IsContained n (other t) u = tt

abbrev pub is_value : {A : Type 0} → Answer A → Bool
is_value (value a) = true
is_value (raised x) = false

catch_all-answers :
    {S A : Type 0} (m : Method S A) (a : A) (s : S) → is_value (catch m (λ _. pure a) s).0 ≡ true
unfolding catch pure
catch_all-answers {S = S} {A = A} m a s = handled (m s)
  where
    handled : (r : Answer A × S) → is_value (on_failure (λ _ u. (value a, u)) r).0 ≡ true
    handled (value b, u) = refl
    handled (raised x, u) = refl

-- The operations of the backend but create_and_start.
pub record IsSafe (network : String) (d : Client) (s : d.State) : Type 0 where
  pub gets : (n : String) → IsContained (get_workload d n s).0
  pub stops : (n : String) (k : ℕ) → IsContained (stop_workload d n k s).0
  pub removes : (n : String) → IsContained (remove_workload d n s).0
  pub pauses : (n : String) → IsContained (pause_workload d n s).0
  pub unpauses : (n : String) → IsContained (unpause_workload d n s).0
  pub runs : (n : String) (command : List String) → IsContained (exec_in_workload d n command s).0
  pub joins : (n : String) → IsContained (ensure_network network d n s).0
  pub lists : (l : Option String) → is_value (list_workloads d l s).0 ≡ true

-- Whatever the Docker SDK answers, no operation but create_and_start raises one of its APIErrors or NotFound errors, and
-- list_workloads raises nothing at all.
pub operations-IsSafe : (network : String) (d : Client) (s : d.State) → IsSafe network d s
unfolding get_workload stop_workload remove_workload pause_workload unpause_workload
    exec_in_workload ensure_network list_workloads
operations-IsSafe network d s = record {
  gets = λ n. catch-IsContained _ _ s (or_else-IsContained none);
  stops = λ n k. catch-IsContained _ _ s (or_else-IsContained tt);
  removes = λ n. catch-IsContained _ _ s (or_else-IsContained tt);
  pauses = λ n. catch-IsContained _ _ s (or_else-IsContained tt);
  unpauses = λ n. catch-IsContained _ _ s (or_else-IsContained tt);
  runs = λ n command. catch-IsContained _ _ s (exec_failed-IsContained n);
  joins = λ n. catch-IsContained _ _ s (or_else-IsContained tt);
  lists = λ l. catch_all-answers _ [] s;
}
