-- ===== src/Admission/Loop.antt =====
-- Case rules for gateway/admission.py: `_promote`'s loop, and the branches of the other operations.
use dmr.Prelude.{
  ℕ, String, ◌≡◌, refl, Bool, true, false, Option, none, some, List, [], ◌∷◌, ◌++◌, leb, length,
  get_elem?, set, Bool-cases, inl, inr,
}
use dmr.Admission.{
  Queue, Verdict, halt, skip, admit, serve, verdict, promote_loop, promote, vacate, release, grant,
  has_room, acquire, expire, give_up, pending, cancelled, granted, Future, Lease,
}

-- `J` holds at each round's start for the entries left, `P` where the loop ends.
module _ {ℓ κ} (J : List (String × ℕ) → Queue → Type ℓ) (P : Queue → Type κ)
    (done : (q : Queue) → J [] q → P (record q { waiting = [] }))
    (stop : (p : String) (f : ℕ) (ws : List (String × ℕ)) (q : Queue)
      → J ((p, f) ∷ ws) q
      → verdict p f q ≡ halt
      → P (record q { waiting = (p, f) ∷ ws }))
    (pass : (p : String) (f : ℕ) (ws : List (String × ℕ)) (q : Queue)
      → J ((p, f) ∷ ws) q
      → verdict p f q ≡ skip
      → J ws q)
    (serves : (p : String) (f : ℕ) (ws : List (String × ℕ)) (q : Queue)
      → J ((p, f) ∷ ws) q
      → verdict p f q ≡ admit
      → J ws (serve p f q)) where
  round :
      (p : String) (f : ℕ) (ws : List (String × ℕ)) (q : Queue)
      → ((r : Queue) → J ws r → P (promote_loop ws r))
      → J ((p, f) ∷ ws) q
      → (v : Verdict) → verdict p f q ≡ v
      → P (promote_loop ((p, f) ∷ ws) q)
  unfolding promote_loop
  round p f ws q rest j halt e = rw (e, promote_loop) (stop p f ws q j e)
  round p f ws q rest j skip e = rw (e, promote_loop) (rest q (pass p f ws q j e))
  round p f ws q rest j admit e = rw (e, promote_loop) (rest (serve p f q) (serves p f ws q j e))

  pub promote_loop_rule : (ws : List (String × ℕ)) (q : Queue) → J ws q → P (promote_loop ws q)
  unfolding promote_loop
  promote_loop_rule [] q j = done q j
  promote_loop_rule ((p, f) ∷ ws) q j =
      round p f ws q (λ r. promote_loop_rule ws r) j (verdict p f q) refl

pub release_cases {ℓ} :
    (P : Queue → Type ℓ) (l : ℕ) (q : Queue)
    → P q
    → ((x : Lease) → get_elem? q.leases l ≡ some x → x.released ≡ false → P (promote (vacate l q)))
    → P (release l q)
unfolding release
release_cases P l q same held = go (get_elem? q.leases l) refl
  where
    freed :
        (x : Lease) → get_elem? q.leases l ≡ some x → (b : Bool) → x.released ≡ b → P (release l q)
    freed x e true r = rw (e, release, r) same
    freed x e false r = rw (e, release, r) (held x e r)

    go : (o : Option Lease) → get_elem? q.leases l ≡ o → P (release l q)
    go none e = rw (e, release) same
    go (some x) e = freed x e x.released refl

abbrev pub enqueue : String → Queue → Queue
enqueue p q = record q {
  waiting = q.waiting ++ (p, length q.futures) ∷ [];
  futures = q.futures ++ pending ∷ [];
}

pub acquire_cases {ℓ} :
    (P : Queue → Type ℓ) (p : String) (q : Queue)
    → P q
    → (has_room p q ≡ true → P (grant p q))
    → (has_room p q ≡ false → leb q.max_waiting (length q.waiting) ≡ false → P (enqueue p q))
    → P (acquire p q).1
unfolding acquire
acquire_cases P p q full room queued = elim (Bool-cases (has_room p q)) [
  | inl r ↦ rw (r, acquire) (room r)
  | inr r ↦ elim (Bool-cases (leb q.max_waiting (length q.waiting))) [
    | inl m ↦ rw (r, m) full
    | inr m ↦ rw (r, m) (queued r m)
  ]
]

abbrev pub cancel : ℕ → Queue → Queue
cancel f q = record q { futures = set q.futures f cancelled }

pub expire_cases {ℓ} :
    (P : Queue → Type ℓ) (f : ℕ) (q : Queue)
    → P q
    → (get_elem? q.futures f ≡ some pending → P (cancel f q))
    → P (expire f q)
unfolding expire
expire_cases P f q same gone = go (get_elem? q.futures f) refl
  where
    go : (o : Option Future) → get_elem? q.futures f ≡ o → P (expire f q)
    go none e = rw (e, expire) same
    go (some pending) e = rw (e, expire) (gone e)
    go (some cancelled) e = rw (e, expire) same
    go (some (granted l)) e = rw (e, expire) same

pub give_up_cases {ℓ} :
    (P : Queue → Type ℓ) (f : ℕ) (q : Queue)
    → P (cancel f q)
    → ((l : ℕ) → get_elem? q.futures f ≡ some (granted l) → P (release l q))
    → P (give_up f q)
unfolding give_up
give_up_cases P f q gone held = go (get_elem? q.futures f) refl
  where
    go : (o : Option Future) → get_elem? q.futures f ≡ o → P (give_up f q)
    go none e = rw (e, give_up) gone
    go (some pending) e = rw (e, give_up) gone
    go (some cancelled) e = rw (e, give_up) gone
    go (some (granted l)) e = rw (e, give_up) (held l e)
