-- ===== src/Buffer.antt =====
-- gateway/request_buffer.py, class RequestBuffer: the queue that holds requests during a swap.
-- Futures are shared with the waiting handlers: they live in a store, and their addresses are
-- positions in it. `A` is the type of requests and `R` that of results.
pub mod Fates
pub mod Prefix
mod Tests
use dmr.Prelude.{
  ℕ, zero, suc, ◌+◌, ◌-◌, String, Bool, true, false, ◌&&◌, Option, none, some, List, [], ◌∷◌, ◌++◌,
  ltb, leb, if◌then◌else◌, length, get_elem?, set,
}

pub data Failure : Type 0 where
  buffer_overflow expired : Failure
  rejected : String → Failure
  -- What the dispatch of the request raised, in gateway/app.py.
  dispatch_failed : String → Failure

pub data Future (R : Type 0) : Type 0 where
  pending cancelled : Future R
  result : R → Future R
  failed : Failure → Future R

pub record BufferedRequest (A : Type 0) : Type 0 where
  pub request : A
  pub future : ℕ
  pub enqueued_at : ℕ
  pub timeout : ℕ

-- `maxsize` of the asyncio.Queue; 0 means no bound.
pub record Buffer (A R : Type 0) : Type 0 where
  pub maxsize : ℕ
  pub queue : List (BufferedRequest A)
  pub futures : List (Future R)

unfoldable pub done : {R : Type 0} → Option (Future R) → Bool
done (some pending) = false
done _ = true

-- `if not future.done(): …`: a future that is done, or that nobody holds, stays as it is.
unfoldable pub complete : {R : Type 0} → ℕ → Future R → List (Future R) → List (Future R)
unfolding done
complete f v fs = if done (get_elem? fs f) then fs else set fs f v

-- `time.time() - item.enqueued_at < item.timeout`
unfoldable pub is_fresh : {A : Type 0} → ℕ → BufferedRequest A → Bool
is_fresh now item = ltb (now - item.enqueued_at) item.timeout

module _ {A R : Type 0} where
  unfoldable pub queue_size : Buffer A R → ℕ
  queue_size b = length b.queue

  -- asyncio.Queue.full
  unfoldable pub is_full : Buffer A R → Bool
  is_full b = ltb 0 b.maxsize && leb b.maxsize (length b.queue)

  -- enqueue at time `now` with LONG_POLLING_TIMEOUT_S; it returns the new future.
  unfoldable pub enqueue : A → ℕ → ℕ → Buffer A R → ℕ × Buffer A R
  unfolding is_full
  enqueue request now timeout b =
      let f = length b.futures in
      if is_full b then (f, record b { futures = b.futures ++ failed buffer_overflow ∷ [] }) else (
        f,
        record b {
          queue =
              b.queue
              ++ record { request = request; future = f; enqueued_at = now; timeout = timeout }
                ∷ [];
          futures = b.futures ++ pending ∷ [];
        },
      )

  -- The loop of drain_all; `clock k` is the time read for the k-th item of the queue.
  unfoldable pub drain_loop :
      List (BufferedRequest A)
      → (ℕ → ℕ)
      → List (Future R)
      → List (BufferedRequest A) × List (Future R)
  drain_loop [] clock fs = ([], fs)
  drain_loop (item ∷ items) clock fs =
      let later = λ (k : ℕ). clock (suc k) in
      let fresh = is_fresh (clock 0) item in
      let (drained, fs') =
        drain_loop items later (if fresh then fs else complete item.future (failed expired) fs) in
      (if fresh then item ∷ drained else drained, fs')

  unfoldable pub drain_all : (ℕ → ℕ) → Buffer A R → List (BufferedRequest A) × Buffer A R
  drain_all clock b =
      let (drained, fs) = drain_loop b.queue clock b.futures in
      (drained, record b { queue = []; futures = fs })

  unfoldable pub resolve : BufferedRequest A → R → Buffer A R → Buffer A R
  unfolding complete
  resolve item r b = record b { futures = complete item.future (result r) b.futures }

  unfoldable pub reject_loop : String → List (BufferedRequest A) → List (Future R) → List (Future R)
  reject_loop reason [] fs = fs
  reject_loop reason (item ∷ items) fs =
      reject_loop reason items (complete item.future (failed (rejected reason)) fs)

  unfoldable pub reject_all : String → Buffer A R → Buffer A R
  reject_all reason b = record b { queue = []; futures = reject_loop reason b.queue b.futures }
