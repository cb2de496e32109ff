-- ===== src/Thermal/Bounds.antt =====
-- ops/thermal_guard.py never indexes outside its ladder, and how it reacts to heat.
use dmr.Prelude.{ℕ, ◌+◌, ◌≤◌, ◌<◌, ◌≡◌, refl, ◌⊎◌, Option, none, some, List, [], ◌∷◌, arith, All}
use dmr.Thermal.{Settings, Guard, top, min_idx, cooling, pass, watch, with_cap}

abbrev pub InLadder : Settings → Guard → Type 0
InLadder s g = g.idx ≤ top s

pass-InLadder :
    (s : Settings) (now : ℕ) (r : Option ℕ) (g : Guard)
    → InLadder s g
    → InLadder s (pass s now r g).guard
unfolding pass cooling min_idx
pass-InLadder s now none g h = h
pass-InLadder s now (some t) g h = ground arith

pass_applied :
    (s : Settings) (now : ℕ) (r : Option ℕ) (g : Guard) (i : ℕ)
    → (pass s now r g).applied ≡ some i
    → i ≡ (pass s now r g).guard.idx
unfolding pass cooling
pass_applied s now none g i h = cc
pass_applied s now (some t) g i h = ground arith

with_cap-All :
    (n : ℕ) (o : Option ℕ) (is : List ℕ)
    → ((i : ℕ) → o ≡ some i → i ≤ n)
    → All (λ i. i ≤ n) is
    → All (λ i. i ≤ n) (with_cap o is)
unfolding with_cap
with_cap-All n none is h k = k
with_cap-All n (some i) is h k = (h i refl, k)

-- Whatever the readings, the governor stays on its ladder, and so does every cap it applies:
-- STEPS[idx] never fails.
pub watch-InLadder :
    (s : Settings) (rs : List (ℕ × Option ℕ)) (g : Guard)
    → InLadder s g
    → InLadder s (watch s rs g).0 × All (λ i. i ≤ top s) (watch s rs g).1
unfolding watch
watch-InLadder s [] g h = (h, tt)
watch-InLadder s ((now, r) ∷ rs) g h =
    let p = pass-InLadder s now r g h in
    let rest = watch-InLadder s rs (pass s now r g).guard p in
    (rest.0, with_cap-All (top s) _ _ (λ i e. omega (arith, p, pass_applied s now r g i e)) rest.1)

-- In the danger band a pass goes down two steps, or to the slowest step, and forgets any cooling.
-- In the warning band it goes down one. It stays only if it was on the slowest step already.
pub pass_hot :
    (s : Settings) (now t : ℕ) (g : Guard)
    → InLadder s g
    → s.warn ≤ s.danger
    → s.cool < s.warn
    → s.warn ≤ t
    → let h = (pass s now (some t) g).guard in
      (h.cool_since ≡ none)
      × ((g.idx ≡ top s) × (h.idx ≡ g.idx)
          ⊎ (s.danger ≤ t) × (h.idx ≡ min_idx (g.idx + 2) (top s))
          ⊎ (t < s.danger) × (h.idx ≡ g.idx + 1))
unfolding pass cooling
pass_hot s now t g l w c h = ground arith
