-- ===== src/App/Tests.antt =====
-- Requests for two profiles that overlap.
use dmr.Prelude.{ℕ, ◌≡◌, refl, true, false, none, some, List, [], ◌∷◌}
use dmr.App.{success, Step, request, ends, run, get_or_create_swap_task}
use dmr.App.Joining.{Tracked, run-Tracked}
use dmr.Admission
use dmr.Admission.{Queue}
use dmr.App.Leases.{
  raised, failed, cancelled, acquired, released, sent, closed, abandoned, granted, after_wait,
  replied, work_done, serve, untouched, expected, is_streamed, serve-releases,
}
use dmr.App.Requests.{
  Seen, swap_done, Dispatched, plain, streaming, chat_request, serves_now, IsHandled,
  chat_request-IsHandled,
}

-- A swap to "a" is overtaken by one to "b" and ends; the last step stands first.
abbrev overtaken : List Step
overtaken = ends 0 (success true) ∷ request "b" false ∷ request "a" false ∷ []

run-overtaken : (run overtaken).active_swap_task ≡ some 1
unfolding run
run-overtaken = refl

get_or_create_swap_task-overtaken : (get_or_create_swap_task "b" true (run overtaken)).0 ≡ 1
unfolding run get_or_create_swap_task
get_or_create_swap_task-overtaken = refl

run-Tracked_example : Tracked (run overtaken)
run-Tracked_example = run-Tracked overtaken

abbrev on_b : Seen
on_b = record {
  current_profile = some "a";
  target_key = "b";
  model_ready = false;
  is_swapping = true;
}

abbrev done : Dispatched ℕ
done = plain true 7

chat_request-IsHandled_example :
    IsHandled
      (serves_now on_b)
      true
      on_b
      (swap_done true)
      (run overtaken)
      (chat_request true false on_b (swap_done true) done (run overtaken))
chat_request-IsHandled_example =
    chat_request-IsHandled overtaken true false on_b (swap_done true) done

abbrev idle_queue : Queue
idle_queue = record {
  limit = 1;
  max_waiting = 4;
  active = 0;
  profile = none;
  waiting = [];
  futures = [];
  leases = [];
}

-- The sending of a stream fails, and so does the closing of its generator.
serve-releases_example :
    (serve {J = ℕ}
      (after_wait (Admission.acquire "a" idle_queue).0 abandoned)
      (replied (streaming 7))
      work_done
      (raised failed)
      (raised cancelled)
      untouched).1.events
    ≡ expected
        (after_wait (Admission.acquire "a" idle_queue).0 abandoned)
        (is_streamed {J = ℕ} (replied (streaming 7)) work_done)
serve-releases_example =
    serve-releases "a" idle_queue abandoned (replied (streaming 7)) work_done (raised failed)
      (raised cancelled)

serve-failed_stream :
    (serve {J = ℕ}
      (granted 3)
      (replied (streaming 7))
      work_done
      (raised failed)
      (raised cancelled)
      untouched).1.events
    ≡ acquired 3 ∷ sent ∷ closed ∷ released 3 ∷ []
unfolding serve
serve-failed_stream = refl
