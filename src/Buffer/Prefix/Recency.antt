-- ===== src/Buffer/Prefix/Recency.antt =====
-- The prefix cache of gateway/request_buffer.py holds the most recently used hashes, in that order.
use dmr.Prelude.{
  ℕ, zero, suc, ◌≤◌, String, ◌≡◌, refl, ap, sym, ◌∙◌, ◌⊎◌, inl, inr, Bool, true, false, ◌||◌,
  Option, none, some, List, [], ◌∷◌, arith, if◌then◌else◌, length, str_eq, Text, leb, Bool-cases,
}
use dmr.Buffer.Prefix.{
  CachedPrefix, Cache, lookup, remove, pop_oldest, with_entry, insert_new, register,
}

-- What a call of get_prefix_hash gives to the cache.
pub record Use : Type 0 where
  pub hash : String
  pub combined : Text
  pub now : ℕ

-- The cache after some uses, latest first, from RadixPrefixCache(max_entries).
pub after : ℕ → List Use → Option Cache
after n [] = some (record { entries = []; max_entries = n })
after n (u ∷ us) = elim (after n us) [ some c ↦ register u.hash u.combined u.now c | none ↦ none ]

abbrev pub keys : List (String × CachedPrefix) → List String
keys [] = []
keys ((k, e) ∷ es) = k ∷ keys es

abbrev pub hashes : List Use → List String
hashes [] = []
hashes (u ∷ us) = u.hash ∷ hashes us

abbrev pub without : String → List String → List String
without h [] = []
without h (k ∷ ks) = if str_eq k h then ks else k ∷ without h ks

-- The distinct hashes of a history that is given latest first, by last use.
abbrev pub recent : List String → List String
recent [] = []
recent (h ∷ hs) = h ∷ without h (recent hs)

abbrev pub take : ℕ → List String → List String
take zero ks = []
take (suc n) [] = []
take (suc n) (k ∷ ks) = k ∷ take n ks

abbrev has : String → List String → Bool
has h [] = false
has h (k ∷ ks) = str_eq k h || has h ks

abbrev drop_last : List String → List String
drop_last [] = []
drop_last (k ∷ []) = []
drop_last (k ∷ l ∷ ks) = k ∷ drop_last (l ∷ ks)

keys-remove :
    (h : String) (es : List (String × CachedPrefix)) → keys (remove h es) ≡ without h (keys es)
unfolding remove
keys-remove h [] = refl
keys-remove h ((k, e) ∷ es) = ground (arith, keys-remove h es)

has-lookup :
    (h : String) (es : List (String × CachedPrefix))
    → ((lookup h es ≡ none) × (has h (keys es) ≡ false))
      ⊎ ((e : CachedPrefix) × (lookup h es ≡ some e) × (has h (keys es) ≡ true))
unfolding lookup
has-lookup h [] = inl (refl, refl)
has-lookup h ((k, e) ∷ es) = elim (Bool-cases (str_eq k h)) [
  | inl t ↦ inr (e, rw t, rw t)
  | inr f ↦ rw f (has-lookup h es)
]

pop_oldest-keys :
    (e : String × CachedPrefix) (es : List (String × CachedPrefix))
    → (fs : List (String × CachedPrefix)) × (pop_oldest (e ∷ es) ≡ some fs)
      × (keys fs ≡ drop_last (keys (e ∷ es)))
unfolding pop_oldest
pop_oldest-keys (k, e) [] = ([], refl, refl)
pop_oldest-keys (k, e) ((l, f) ∷ es) =
    let (fs, p, q) = pop_oldest-keys (l, f) es in ((k, e) ∷ fs, rw p, ap (λ ks. k ∷ ks) q)

length-keys : (es : List (String × CachedPrefix)) → length (keys es) ≡ length es
length-keys [] = refl
length-keys (e ∷ es) = omega (arith, length-keys es)

-- Moving a key to the front of the latest `m + 1`: the three ways the cache does it.
take_hit :
    (h : String) (m : ℕ) (ks : List String)
    → has h (take (suc m) ks) ≡ true
    → without h (take (suc m) ks) ≡ take m (without h ks)
take_hit h m [] e = cc
take_hit h zero (k ∷ ks) e = ground arith
take_hit h (suc m) (k ∷ ks) e = ground (arith, take_hit h m ks)

take_room :
    (h : String) (m : ℕ) (ks : List String)
    → has h (take (suc m) ks) ≡ false
    → length (take (suc m) ks) ≤ m
    → take (suc m) ks ≡ take m (without h ks)
take_room h zero [] e l = refl
take_room h (suc m) [] e l = refl
take_room h zero (k ∷ ks) e l = absurd (omega arith)
take_room h (suc m) (k ∷ ks) e l = ground (arith, take_room h m ks)

take_full :
    (h : String) (m : ℕ) (ks : List String)
    → has h (take (suc m) ks) ≡ false
    → suc m ≤ length (take (suc m) ks)
    → drop_last (take (suc m) ks) ≡ take m (without h ks)
take_full h m [] e l = absurd (omega arith)
take_full h zero (k ∷ ks) e l = refl
take_full h (suc m) (k ∷ []) e l = absurd (omega arith)
take_full h (suc m) (k ∷ j ∷ ks) e l = ground (arith, take_full h m (j ∷ ks))

-- A cache that holds these keys, as the outcome of a call.
abbrev Holds : ℕ → List String → Option Cache → Type 0
Holds n ks o = (d : Cache) × (o ≡ some d) × (d.max_entries ≡ n) × (keys d.entries ≡ ks)

module _ (h : String) (x : CachedPrefix) (m : ℕ) (ks : List String) (c : Cache)
    (n : c.max_entries ≡ suc m) (e : keys c.entries ≡ take (suc m) ks) where
  hit-Holds :
      has h (keys c.entries) ≡ true
      → Holds (suc m) (h ∷ take m (without h ks)) (some (with_entry h x c (remove h c.entries)))
  unfolding with_entry
  hit-Holds t = (
    record c { entries = (h, x) ∷ remove h c.entries },
    refl,
    n,
    ap (λ l. h ∷ l) (keys-remove h c.entries ∙ ap (without h) e ∙ take_hit h m ks (rw (← e) t)),
  )

  full-Holds :
      (es : List (String × CachedPrefix))
      → c.entries ≡ es
      → suc m ≤ length es
      → has h (take (suc m) ks) ≡ false
      → Holds
          (suc m)
          (h ∷ take m (without h ks))
          (elim (pop_oldest c.entries) [ some fs ↦ some (with_entry h x c fs) | none ↦ none ])
  unfolding with_entry
  full-Holds [] q l f = absurd (omega arith)
  full-Holds (y ∷ es) q l f =
      let (fs, p, k) = pop_oldest-keys y es in
      (
        record c { entries = (h, x) ∷ fs },
        rw (q, p),
        n,
        ap (λ l. h ∷ l)
            (k
              ∙ ap drop_last (ap keys (sym q) ∙ e)
              ∙ take_full h m ks f (
                  omega (
                    arith,
                    length-keys c.entries,
                    ap (λ (t : List String). length t) e,
                    ap (λ (t : List (String × CachedPrefix)). length t) q,
                  ))),
      )

  miss-Holds :
      has h (keys c.entries) ≡ false → Holds (suc m) (h ∷ take m (without h ks)) (insert_new h x c)
  unfolding insert_new with_entry
  miss-Holds f = elim (Bool-cases (leb c.max_entries (length c.entries))) [
    | inl full ↦ rw full (full-Holds c.entries refl (ground arith) (rw (← e) f))
    | inr room ↦ rw room (
      record c { entries = (h, x) ∷ c.entries },
      refl,
      n,
      ap (λ l. h ∷ l)
          (e
            ∙ take_room h m ks (rw (← e) f)
                (ground (arith, length-keys c.entries, ap (λ (t : List String). length t) e))),
    )
  ]

-- One use: the cache had the latest `m + 1` of a history, and now has those of the longer history.
register-Holds :
    (u : Use) (m : ℕ) (ks : List String) (c : Cache)
    → c.max_entries ≡ suc m
    → keys c.entries ≡ take (suc m) ks
    → Holds (suc m) (take (suc m) (u.hash ∷ without u.hash ks)) (register u.hash u.combined u.now c)
unfolding register
register-Holds u m ks c n e = elim (has-lookup u.hash c.entries) [
  | inl (q, f) ↦ rw (q, register) (miss-Holds u.hash _ m ks c n e f)
  | inr (x, q, t) ↦ rw (q, register) (hit-Holds u.hash _ m ks c n e t)
]

-- A cache for at least one entry never fails, and after any uses it holds exactly the
-- `max_entries` distinct hashes that were used last, by their last use: least recently used is
-- evicted first.
pub after-recent :
    (m : ℕ) (us : List Use)
    → (c : Cache) × (after (suc m) us ≡ some c)
      × (c.max_entries ≡ suc m)
      × (keys c.entries ≡ take (suc m) (recent (hashes us)))
unfolding after
after-recent m [] = (record { entries = []; max_entries = suc m }, refl, refl, refl)
after-recent m (u ∷ us) =
    let (c, q, n, e) = after-recent m us in
    rw (q, after) (register-Holds u m (recent (hashes us)) c n e)
