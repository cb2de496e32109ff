-- ===== src/Buffer/Fates.antt =====
-- What becomes of the requests held by gateway/request_buffer.py's RequestBuffer.
use mathlib.Core.Option.{some-injective}
use dmr.Prelude.{
  ℕ, zero, suc, ◌≤◌, ◌<◌, String, ◌≡◌, refl, ap, ◌≢◌, ◌⊎◌, inl, inr, true, false, Option, none,
  some, List, [], ◌∷◌, ◌++◌, arith, length, length-append, get_elem?, set, Bool-cases,
  get_elem?-set_self, get_elem?-set_ne,
}
use dmr.Buffer.{
  buffer_overflow, expired, rejected, Future, pending, failed, BufferedRequest, Buffer, done,
  complete, is_fresh, is_full, enqueue, drain_loop, drain_all, reject_loop, reject_all,
}

module _ {R : Type 0} where
  -- Completing a future leaves it done, leaves the others as they are, and undoes nothing.
  complete-done :
      (f : ℕ) (v : Future R) (fs : List (Future R))
      → done (some v) ≡ true
      → done (get_elem? (complete f v fs) f) ≡ true
  unfolding complete
  complete-done f v fs h = elim (Bool-cases (done (get_elem? fs f))) [
    | inl e ↦ rw (e, complete) e
    | inr e ↦ rw (e, complete) (stored (get_elem? fs f) refl e)
  ]
    where
      stored :
          (o : Option (Future R))
          → get_elem? fs f ≡ o
          → done (get_elem? fs f) ≡ false
          → done (get_elem? (set fs f v) f) ≡ true
      stored none q e = cc (ap done q, e)
      stored (some w) q e = rw (get_elem?-set_self fs f v w q) h

  complete-ne :
      (f g : ℕ) (v : Future R) (fs : List (Future R))
      → f ≢ g
      → get_elem? (complete f v fs) g ≡ get_elem? fs g
  unfolding complete
  complete-ne f g v fs h = elim (Bool-cases (done (get_elem? fs f))) [
    | inl e ↦ rw (e, complete)
    | inr e ↦ rw (e, complete) (get_elem?-set_ne fs f g v h)
  ]

  -- A future that is pending afterwards was pending before, and is another one.
  pub complete-pending :
      (f g : ℕ) (v : Future R) (fs : List (Future R))
      → done (some v) ≡ true
      → get_elem? (complete f v fs) g ≡ some pending
      → (f ≢ g) × (get_elem? fs g ≡ some pending)
  unfolding done
  complete-pending f g v fs h e =
      let other : f ≢ g = λ p. cc (
        complete-done f v fs h,
        ap done e,
        ap (λ (k : ℕ). done (get_elem? (complete f v fs) k)) p,
      ) in
      (other, rw (complete-ne f g v fs other) at e)

module _ {R : Type 0} where
  append-pending :
      (fs : List (Future R)) (v : Future R) (f : ℕ)
      → get_elem? (fs ++ v ∷ []) f ≡ some pending
      → (get_elem? fs f ≡ some pending) ⊎ (length fs ≡ f) × (v ≡ pending)
  append-pending [] v zero e = inr (refl, some-injective _ _ e)
  append-pending [] v (suc f) e = cc
  append-pending (x ∷ fs) v zero e = inl e
  append-pending (x ∷ fs) v (suc f) e = elim (append-pending fs v f e) [
    | inl h ↦ inl h
    | inr (l, h) ↦ inr (ap suc l, h)
  ]

abbrev pub Awaits : {A : Type 0} → ℕ → List (BufferedRequest A) → Type 0
Awaits f [] = ⊥
Awaits f (item ∷ items) = (item.future ≡ f) ⊎ Awaits f items

Awaits-snoc :
    {A : Type 0} (f : ℕ) (items : List (BufferedRequest A)) (item : BufferedRequest A)
    → Awaits f items ⊎ (item.future ≡ f)
    → Awaits f (items ++ item ∷ [])
Awaits-snoc f [] item (inl h) = absurd h
Awaits-snoc f [] item (inr h) = inl h
Awaits-snoc f (x ∷ items) item (inl (inl h)) = inl h
Awaits-snoc f (x ∷ items) item (inl (inr h)) = inr (Awaits-snoc f items item (inl h))
Awaits-snoc f (x ∷ items) item (inr h) = inr (Awaits-snoc f items item (inr h))

module _ {A R : Type 0} where
  -- Every future that somebody still waits for belongs to a queued request, and the queue is
  -- within its bound.
  pub record IsHeld (b : Buffer A R) : Type 0 where
    pub held : (f : ℕ) → get_elem? b.futures f ≡ some pending → Awaits f b.queue
    pub bounded : 0 < b.maxsize → length b.queue ≤ b.maxsize

  -- enqueue keeps that so: a request that does not fit has its future failed at once.
  pub enqueue-IsHeld :
      (request : A) (now timeout : ℕ) (b : Buffer A R)
      → IsHeld b
      → IsHeld (enqueue request now timeout b).1
  unfolding enqueue
  enqueue-IsHeld request now timeout b h = elim (Bool-cases (is_full b)) [
    | inl full ↦ rw (full, enqueue) (record { held = refused; bounded = h.bounded })
    | inr room ↦ rw (room, enqueue) (record { held = queued; bounded = fits room })
  ]
    where
      refused :
          (f : ℕ)
          → get_elem? (b.futures ++ failed buffer_overflow ∷ []) f ≡ some pending
          → Awaits f b.queue
      refused f e = elim (append-pending b.futures (failed buffer_overflow) f e) [
        | inl old ↦ h.held f old
        | inr (_, e') ↦ cc
      ]

      item : BufferedRequest A
      item = record {
        request = request;
        future = length b.futures;
        enqueued_at = now;
        timeout = timeout;
      }

      queued :
          (f : ℕ)
          → get_elem? (b.futures ++ pending ∷ []) f ≡ some pending
          → Awaits f (b.queue ++ item ∷ [])
      queued f e = elim (append-pending b.futures pending f e) [
        | inl old ↦ Awaits-snoc f b.queue item (inl (h.held f old))
        | inr (new, _) ↦ Awaits-snoc f b.queue item (inr new)
      ]

      fits : is_full b ≡ false → 0 < b.maxsize → length (b.queue ++ item ∷ []) ≤ b.maxsize
      fits room p = ground (arith, length-append b.queue (item ∷ []))

  pub drain_loop-pending :
      (items : List (BufferedRequest A)) (clock : ℕ → ℕ) (fs : List (Future R)) (f : ℕ)
      → get_elem? (drain_loop items clock fs).1 f ≡ some pending
      → get_elem? fs f ≡ some pending
  unfolding drain_loop done
  drain_loop-pending [] clock fs f e = e
  drain_loop-pending (item ∷ items) clock fs f e = elim (Bool-cases (is_fresh (clock 0) item)) [
    | inl y ↦ drain_loop-pending items (λ k. clock (suc k)) fs f (rw y at e)
    | inr n ↦
        (complete-pending item.future f (failed expired) fs refl (
          drain_loop-pending items (λ k. clock (suc k)) (complete item.future (failed expired) fs) f
            (rw n at e))).1
  ]

  drain_loop-Awaits :
      (items : List (BufferedRequest A)) (clock : ℕ → ℕ) (fs : List (Future R)) (f : ℕ)
      → get_elem? (drain_loop items clock fs).1 f ≡ some pending
      → Awaits f items
      → Awaits f (drain_loop items clock fs).0
  unfolding drain_loop done
  drain_loop-Awaits [] clock fs f e h = h
  drain_loop-Awaits (item ∷ items) clock fs f e h = elim (Bool-cases (is_fresh (clock 0) item)) [
    | inl y ↦ rw y (fresh (drain_loop-Awaits items later fs f) (rw y at e) h)
    | inr n ↦ rw n (
        stale (drain_loop-Awaits items later (complete item.future (failed expired) fs) f)
          (rw n at e) h)
  ]
    where
      later : ℕ → ℕ
      later k = clock (suc k)

      fresh :
          (get_elem? (drain_loop items later fs).1 f ≡ some pending
            → Awaits f items
            → Awaits f (drain_loop items later fs).0)
          → get_elem? (drain_loop items later fs).1 f ≡ some pending
          → Awaits f (item ∷ items)
          → Awaits f (item ∷ (drain_loop items later fs).0)
      fresh rest p (inl q) = inl q
      fresh rest p (inr q) = inr (rest p q)

      stale :
          (get_elem? (drain_loop items later (complete item.future (failed expired) fs)).1 f
              ≡ some pending
            → Awaits f items
            → Awaits f (drain_loop items later (complete item.future (failed expired) fs)).0)
          → get_elem? (drain_loop items later (complete item.future (failed expired) fs)).1 f
            ≡ some pending
          → Awaits f (item ∷ items)
          → Awaits f (drain_loop items later (complete item.future (failed expired) fs)).0
      stale rest p (inl q) = absurd (
          (complete-pending item.future f (failed expired) fs refl
              (drain_loop-pending items later _ f p)).0
            q)
      stale rest p (inr q) = rest p q

  -- drain_all loses no request: the queue is empty afterwards, and every future that is still
  -- pending belongs to a request that was handed out.
  pub drain_all-Awaits :
      (clock : ℕ → ℕ) (b : Buffer A R)
      → IsHeld b
      → let r = drain_all clock b in
        (r.1.queue ≡ []) × ((f : ℕ) → get_elem? r.1.futures f ≡ some pending → Awaits f r.0)
  unfolding drain_all
  drain_all-Awaits clock b h = (
    refl,
    λ f e.
        drain_loop-Awaits b.queue clock b.futures f e
          (h.held f (drain_loop-pending b.queue clock b.futures f e)),
  )

  reject_loop-pending :
      (reason : String) (items : List (BufferedRequest A)) (fs : List (Future R)) (f : ℕ)
      → get_elem? (reject_loop reason items fs) f ≡ some pending
      → (get_elem? fs f ≡ some pending) × ¬ Awaits f items
  unfolding reject_loop done
  reject_loop-pending reason [] fs f e = (e, λ h. h)
  reject_loop-pending reason (item ∷ items) fs f e =
      let (p, n) =
        reject_loop-pending reason items (complete item.future (failed (rejected reason)) fs) f e in
      let (ne, q) = complete-pending item.future f (failed (rejected reason)) fs refl p in
      (q, elim [ inl h ↦ ne h | inr h ↦ n h ])

  -- After reject_all nobody is left waiting: the queue is empty and no future is pending.
  pub reject_all-settles :
      (reason : String) (b : Buffer A R)
      → IsHeld b
      → ((reject_all reason b).queue ≡ [])
        × ((f : ℕ) → get_elem? (reject_all reason b).futures f ≢ some pending)
  unfolding reject_all
  reject_all-settles reason b h =
      (refl, λ f e. let (p, n) = reject_loop-pending reason b.queue b.futures f e in n (h.held f p))
