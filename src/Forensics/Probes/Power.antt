-- ===== src/Forensics/Probes/Power.antt =====
-- ops/node_forensics.py, class PowerSampler: the least and the greatest reading since the last sample. A reading is a number of
-- some small unit of power.
use dmr.Prelude.{
  ℕ, ◌≤◌, Option, none, some, List, [], ◌∷◌, ltb, if◌then◌else◌, Text, ◌≡◌, refl, ap, ◌∙◌, All,
  Elem, ◌⊎◌, inl, inr, arith,
}

pub record Power : Type 0 where
  pub lo : Option ℕ
  pub hi : Option ℕ

unfoldable pub lower_of : ℕ → Option ℕ → ℕ
lower_of v none = v
lower_of v (some w) = if ltb v w then v else w

unfoldable pub higher_of : ℕ → Option ℕ → ℕ
higher_of v none = v
higher_of v (some w) = if ltb w v then v else w

-- One line of nvidia-smi that is a number.
unfoldable pub observe : ℕ → Power → Power
unfolding lower_of higher_of
observe v p = record { lo = some (lower_of v p.lo); hi = some (higher_of v p.hi) }

unfoldable pub observe_all : List ℕ → Power → Power
unfolding observe
observe_all [] p = p
observe_all (v ∷ vs) p = observe_all vs (observe v p)

unfoldable pub watts : (ℕ → Text) → Option ℕ → Text
watts f none = []
watts f (some v) = f v

-- take, for the formatting of a reading: the two fields, and what is left.
unfoldable pub take : (ℕ → Text) → Power → (Text × Text) × Power
unfolding watts
take f p = ((watts f p.lo, watts f p.hi), record { lo = none; hi = none })

abbrev pub no_power : Power
no_power = record { lo = none; hi = none }

abbrev pub IsLeast : ℕ → List ℕ → Type 0
IsLeast n vs = Elem n vs × All (λ v. n ≤ v) vs

abbrev pub IsGreatest : ℕ → List ℕ → Type 0
IsGreatest n vs = Elem n vs × All (λ v. v ≤ n) vs

-- What a sample reports of the readings since the one before.
abbrev pub Reports : List ℕ → (ℕ → Text) → Text × Text → Type 0
Reports [] f r = (r.0 ≡ []) × (r.1 ≡ [])
Reports (v ∷ vs) f r =
    (lo : ℕ) × ((hi : ℕ) × ((r.0 ≡ f lo)
        × ((r.1 ≡ f hi) × (IsLeast lo (v ∷ vs) × IsGreatest hi (v ∷ vs)))))

lower_of-cases :
    (v w : ℕ)
    → ((lower_of v (some w) ≡ v) ⊎ (lower_of v (some w) ≡ w))
      × ((lower_of v (some w) ≤ v) × (lower_of v (some w) ≤ w))
unfolding lower_of
lower_of-cases v w = ground arith

higher_of-cases :
    (v w : ℕ)
    → ((higher_of v (some w) ≡ v) ⊎ (higher_of v (some w) ≡ w))
      × ((v ≤ higher_of v (some w)) × (w ≤ higher_of v (some w)))
unfolding higher_of
higher_of-cases v w = ground arith

-- The least of a list is that of the list with its first two joined.
IsLeast-join :
    (n k v w : ℕ) (vs : List ℕ)
    → (k ≡ v) ⊎ (k ≡ w)
    → (k ≤ v) × (k ≤ w)
    → IsLeast n (k ∷ vs)
    → IsLeast n (w ∷ v ∷ vs)
IsLeast-join n k v w vs (inl e) (a, b) (inl i, (l, ls)) =
    (inr (inl (i ∙ e)), (omega arith, (omega arith, ls)))
IsLeast-join n k v w vs (inr e) (a, b) (inl i, (l, ls)) =
    (inl (i ∙ e), (omega arith, (omega arith, ls)))
IsLeast-join n k v w vs e (a, b) (inr i, (l, ls)) = (inr (inr i), (omega arith, (omega arith, ls)))

IsGreatest-join :
    (n k v w : ℕ) (vs : List ℕ)
    → (k ≡ v) ⊎ (k ≡ w)
    → (v ≤ k) × (w ≤ k)
    → IsGreatest n (k ∷ vs)
    → IsGreatest n (w ∷ v ∷ vs)
IsGreatest-join n k v w vs (inl e) (a, b) (inl i, (l, ls)) =
    (inr (inl (i ∙ e)), (omega arith, (omega arith, ls)))
IsGreatest-join n k v w vs (inr e) (a, b) (inl i, (l, ls)) =
    (inl (i ∙ e), (omega arith, (omega arith, ls)))
IsGreatest-join n k v w vs e (a, b) (inr i, (l, ls)) =
    (inr (inr i), (omega arith, (omega arith, ls)))

record Spans (lo hi : ℕ) (vs : List ℕ) : Type 0 where
  pub least : ℕ
  pub greatest : ℕ
  pub state :
      observe_all vs (record { lo = some lo; hi = some hi })
      ≡ record { lo = some least; hi = some greatest }
  pub least_is : IsLeast least (lo ∷ vs)
  pub greatest_is : IsGreatest greatest (hi ∷ vs)

observe_all-Spans : (lo hi : ℕ) (vs : List ℕ) → Spans lo hi vs
unfolding observe_all observe
observe_all-Spans lo hi [] = record {
  least = lo;
  greatest = hi;
  state = refl;
  least_is = (inl refl, (omega arith, tt));
  greatest_is = (inl refl, (omega arith, tt));
}
observe_all-Spans lo hi (v ∷ vs) =
    let r = observe_all-Spans (lower_of v (some lo)) (higher_of v (some hi)) vs in
    let (le, lb) = lower_of-cases v lo in
    let (ge, gb) = higher_of-cases v hi in
    record {
      least = r.least;
      greatest = r.greatest;
      state = r.state;
      least_is = IsLeast-join r.least _ v lo vs le lb r.least_is;
      greatest_is = IsGreatest-join r.greatest _ v hi vs ge gb r.greatest_is;
    }

-- A sample reports the least and the greatest of the readings since the sample before, or nothing if there was none, and it leaves
-- the sampler as it was at first.
pub take-Reports :
    (f : ℕ → Text) (vs : List ℕ)
    → Reports vs f (take f (observe_all vs no_power)).0
      × ((take f (observe_all vs no_power)).1 ≡ no_power)
unfolding take watts observe_all observe lower_of higher_of
take-Reports f [] = ((refl, refl), refl)
take-Reports f (v ∷ vs) =
    let r = observe_all-Spans v v vs in
    (
      (
        r.least,
        (
          r.greatest,
          (
            ap (λ p. watts f p.lo) r.state,
            (ap (λ p. watts f p.hi) r.state, (r.least_is, r.greatest_is)),
          ),
        ),
      ),
      refl,
    )
