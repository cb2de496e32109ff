-- ===== src/Buffer/Tests.antt =====
-- Runs of gateway/request_buffer.py's classes, and instances of their theorems.
use mathlib.Core.Option.{some-injective}
use dmr.Prelude.{ℕ, zero, suc, String, ◌≡◌, refl, inl, some, List, [], ◌∷◌, arith, get_elem?, codes}
use dmr.Buffer.{
  expired, pending, cancelled, failed, Buffer, enqueue, drain_all, drain_loop, complete, is_fresh,
  done,
}
use dmr.Buffer.Fates.{Awaits, IsHeld, enqueue-IsHeld}
use dmr.Buffer.Prefix.{Cache}
use dmr.Buffer.Prefix.Recency.{Use, after, keys, hashes, recent, take, after-recent}

-- Room for two requests, one of which waits.
abbrev one_waiting : Buffer String String
one_waiting = record {
  maxsize = 2;
  queue = record { request = "a"; future = 1; enqueued_at = 10; timeout = 30 } ∷ [];
  futures = cancelled ∷ pending ∷ [];
}

one_waiting-IsHeld : IsHeld one_waiting
one_waiting-IsHeld = record { held = go; bounded = λ p. omega arith }
  where
    go :
        (f : ℕ)
        → get_elem? (Buffer.futures one_waiting) f ≡ some pending
        → Awaits f (Buffer.queue one_waiting)
    go zero e = cc (some-injective _ _ e)
    go (suc zero) e = inl refl
    go (suc (suc f)) e = cc

enqueue-IsHeld_example : IsHeld (enqueue "b" 20 30 one_waiting).1
enqueue-IsHeld_example = enqueue-IsHeld "b" 20 30 one_waiting one_waiting-IsHeld

-- A request that is older than its timeout is not handed out.
stale_run :
    drain_all (λ k. 50) one_waiting
    ≡ ([], record { maxsize = 2; queue = []; futures = cancelled ∷ failed expired ∷ [] })
unfolding drain_all drain_loop complete is_fresh done
stale_run = refl

abbrev use_of : String → ℕ → Use
use_of h t = record { hash = h; combined = codes "prefix"; now = t }

abbrev uses : List Use
uses = use_of "a" 4 ∷ use_of "c" 3 ∷ use_of "b" 2 ∷ use_of "a" 1 ∷ []

after-recent_example :
    (c : Cache) × (after 2 uses ≡ some c)
    × (c.max_entries ≡ 2)
    × (keys c.entries ≡ take 2 (recent (hashes uses)))
after-recent_example = after-recent 1 uses
