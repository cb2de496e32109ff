-- ===== src/Proxy/Names.antt =====
-- gateway/proxy.py, _served_model_name and forget_served_names: the ids that backends answer to. An ask
-- is one step, with the answer of GET /v1/models as an input.
use dmr.Prelude.{
  arith, ◌≡◌, refl, sym, ap, ◌∙◌, String, Bool, true, false, Option, none, some, List, [], ◌∷◌,
  str_eq, eq_iff, if◌then◌else◌,
}
use dmr.Config.{ModelDefinition}
use dmr.Proxy.{Listing, unreadable, not_ok, listed}

-- The dict _served_names.
abbrev pub Names : Type 0
Names = List (String × String)

unfoldable pub find_name : String → Names → Option String
find_name n [] = none
find_name n ((k, v) ∷ kvs) = if str_eq k n then some v else find_name n kvs

unfoldable pub put_name : String → String → Names → Names
put_name k v [] = (k, v) ∷ []
put_name k v ((j, u) ∷ kvs) = if str_eq j k then (j, v) ∷ kvs else (j, u) ∷ put_name k v kvs

unfoldable pub pop_name : String → Names → Names
pop_name k [] = []
pop_name k ((j, u) ∷ kvs) = if str_eq j k then pop_name k kvs else (j, u) ∷ pop_name k kvs

-- `if s`: an empty text counts as none.
unfoldable pub truthy : Option String → Option String
truthy none = none
truthy (some s) = if str_eq s "" then none else some s

unfoldable pub mem_name : String → List String → Bool
mem_name n [] = false
mem_name n (s ∷ ss) = if str_eq s n then true else mem_name n ss

unfoldable pub first_name : List String → Option String
first_name [] = none
first_name (s ∷ ss) = some s

-- The id that an answer offers for the model.
unfoldable pub offer : ModelDefinition → Listing → Option String
unfolding truthy mem_name first_name
offer m unreadable = none
offer m not_ok = none
offer m (listed ids) = truthy (if mem_name m.name ids then some m.name else first_name ids)

-- Without an id in the cache: the one on offer, which is kept, or the model's own name, which is not.
unfoldable pub take_offer : ModelDefinition → Names → Option String → String × Names
take_offer m c none = (m.name, c)
take_offer m c (some s) = (s, put_name m.name s c)

unfoldable pub or_offer : ModelDefinition → Listing → Names → Option String → String × Names
unfolding take_offer offer
or_offer m l c (some s) = (s, c)
or_offer m l c none = take_offer m c (offer m l)

-- _served_model_name; the listing is what the backend would answer now.
unfoldable pub served_model_name : ModelDefinition → Listing → Names → String × Names
unfolding or_offer truthy find_name
served_model_name m l c = or_offer m l c (truthy (find_name m.name c))

unfoldable pub forget_served_names : Option String → Names → Names
unfolding pop_name
forget_served_names none c = []
forget_served_names (some n) c = pop_name n c

-- What happened to the cache, the last first.
pub data Happened : Type 0 where
  asked : ModelDefinition → Listing → Happened
  forgot : Option String → Happened

abbrev pub cache_after : List Happened → Names
cache_after [] = []
cache_after (asked m l ∷ h) = (served_model_name m l (cache_after h)).1
cache_after (forgot n ∷ h) = forget_served_names n (cache_after h)

abbrev pub or_else : Option String → Option String → Option String
or_else (some s) o = some s
or_else none o = o

-- The id that is remembered for a name: the first offer since it was last forgotten.
abbrev pub remembered : List Happened → String → Option String
remembered [] n = none
remembered (asked m l ∷ h) n =
    if str_eq m.name n then or_else (remembered h n) (offer m l) else remembered h n
remembered (forgot none ∷ h) n = none
remembered (forgot (some k) ∷ h) n = if str_eq k n then none else remembered h n

find_name-put_name :
    (n k v : String) (c : Names)
    → find_name n (put_name k v c) ≡ (if str_eq k n then some v else find_name n c)
unfolding find_name put_name
find_name-put_name n k v [] = refl
find_name-put_name n k v ((j, u) ∷ c) =
    ground (arith, find_name-put_name n k v c, eq_iff j k, eq_iff k n, eq_iff j n)

find_name-pop_name :
    (n k : String) (c : Names)
    → find_name n (pop_name k c) ≡ (if str_eq k n then none else find_name n c)
unfolding find_name pop_name
find_name-pop_name n k [] = ground arith
find_name-pop_name n k ((j, u) ∷ c) =
    ground (arith, find_name-pop_name n k c, eq_iff j k, eq_iff k n, eq_iff j n)

truthy-twice : (o : Option String) → truthy (truthy o) ≡ truthy o
unfolding truthy
truthy-twice none = refl
truthy-twice (some s) = ground arith

truthy-offer : (m : ModelDefinition) (l : Listing) → truthy (offer m l) ≡ offer m l
unfolding offer truthy
truthy-offer m unreadable = refl
truthy-offer m not_ok = refl
truthy-offer m (listed ids) =
    truthy-twice (if mem_name m.name ids then some m.name else first_name ids)

truthy-put_name :
    (n k v : String) (c : Names) (o : Option String)
    → truthy (some v) ≡ some v
    → truthy (find_name n c) ≡ o
    → (str_eq k n ≡ true → o ≡ none)
    → truthy (find_name n (put_name k v c)) ≡ (if str_eq k n then or_else o (some v) else o)
truthy-put_name n k v c o h e z = rw (find_name-put_name n k v c) (pick (str_eq k n) z)
  where
    pick :
        (b : Bool)
        → (b ≡ true → o ≡ none)
        → truthy (if b then some v else find_name n c) ≡ (if b then or_else o (some v) else o)
    pick true z = rw (z refl) h
    pick false z = e

take_offer-truthy :
    (m : ModelDefinition) (n : String) (c : Names) (o f : Option String)
    → truthy f ≡ f
    → truthy (find_name n c) ≡ o
    → (str_eq m.name n ≡ true → o ≡ none)
    → truthy (find_name n (take_offer m c f).1) ≡ (if str_eq m.name n then or_else o f else o)
unfolding take_offer
take_offer-truthy m n c o (some s) h e z = truthy-put_name n m.name s c o h e z
take_offer-truthy m n c o none h e z = e ∙ pick (str_eq m.name n) z
  where
    pick : (b : Bool) → (b ≡ true → o ≡ none) → o ≡ (if b then or_else o none else o)
    pick true z = rw (z refl) refl
    pick false z = refl

-- Asking for a model's id, by what is remembered of it and what is on offer.
or_offer-truthy :
    (m : ModelDefinition) (l : Listing) (n : String) (c : Names) (o p : Option String)
    → truthy (find_name n c) ≡ o
    → (str_eq m.name n ≡ true → o ≡ p)
    → truthy (find_name n (or_offer m l c p).1)
      ≡ (if str_eq m.name n then or_else o (offer m l) else o)
unfolding or_offer
or_offer-truthy m l n c o none e z = take_offer-truthy m n c o (offer m l) (truthy-offer m l) e z
or_offer-truthy m l n c o (some s) e z = e ∙ pick (str_eq m.name n) z
  where
    pick : (b : Bool) → (b ≡ true → o ≡ some s) → o ≡ (if b then or_else o (offer m l) else o)
    pick true z = rw (z refl) refl
    pick false z = refl

cache_after-remembered :
    (h : List Happened) (n : String) → truthy (find_name n (cache_after h)) ≡ remembered h n
unfolding forget_served_names served_model_name truthy find_name
cache_after-remembered [] n = refl
cache_after-remembered (asked m l ∷ h) n =
    or_offer-truthy m l n (cache_after h) (remembered h n)
      (truthy (find_name m.name (cache_after h))) (cache_after-remembered h n)
      (λ e. ap (remembered h) (sym ((eq_iff m.name n).0 e)) ∙ sym (cache_after-remembered h m.name))
cache_after-remembered (forgot none ∷ h) n = refl
cache_after-remembered (forgot (some k) ∷ h) n =
    ap truthy (find_name-pop_name n k (cache_after h))
    ∙ pick (str_eq k n) (cache_after-remembered h n)
  where
    pick :
        (b : Bool)
        → truthy (find_name n (cache_after h)) ≡ remembered h n
        → truthy (if b then none else find_name n (cache_after h))
          ≡ (if b then none else remembered h n)
    pick true e = refl
    pick false e = e

abbrev pub or_own : ModelDefinition → Option String → String
or_own m none = m.name
or_own m (some s) = s

-- Whatever was asked and forgotten before, the id a model is addressed by is the first that its backend offered since the
-- name was last forgotten, else the one on offer now, else the model's own name.
pub served_model_name-remembered :
    (h : List Happened) (m : ModelDefinition) (l : Listing)
    → (served_model_name m l (cache_after h)).0
      ≡ or_own m (or_else (remembered h m.name) (offer m l))
unfolding served_model_name or_offer take_offer
served_model_name-remembered h m l =
    by_cache (truthy (find_name m.name (cache_after h))) (cache_after-remembered h m.name)
  where
    by_cache :
        (p : Option String)
        → p ≡ remembered h m.name
        → (or_offer m l (cache_after h) p).0 ≡ or_own m (or_else (remembered h m.name) (offer m l))
    by_cache (some s) e = rw (sym e) refl
    by_cache none e = rw (sym e) (taken (offer m l))
      where
        taken : (f : Option String) → (take_offer m (cache_after h) f).0 ≡ or_own m f
        taken none = refl
        taken (some s) = refl
