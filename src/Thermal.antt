-- ===== src/Thermal.antt =====
-- ops/thermal_guard.py: the thermal governor's decision loop.
-- Temperatures and times are natural numbers (tenths of a degree, milliseconds): the source reads
-- them as floats. The `nvidia-smi` calls are outside: a reading is an input, an `apply_cap` an output.
pub mod Bounds
pub mod Recovery
mod Tests
use dmr.Prelude.{
  ℕ, zero, suc, ◌+◌, ◌-◌, Bool, true, false, ◌&&◌, Option, none, some, List, [], ◌∷◌, ◌++◌, ltb,
  leb, if◌then◌else◌, length, get_elem?,
}

-- WARN_C, DANGER_C, COOL_C, STEPS and RECOVER_S.
pub record Settings : Type 0 where
  pub warn : ℕ
  pub danger : ℕ
  pub cool : ℕ
  pub steps : List ℕ
  pub recover : ℕ

-- The variables of main's loop.
pub record Guard : Type 0 where
  pub idx : ℕ
  pub cool_since : Option ℕ

-- What a pass does to the clock: nothing, or apply_cap(STEPS[idx]).
pub record Pass : Type 0 where
  pub guard : Guard
  pub applied : Option ℕ

-- len(STEPS) - 1
pub top : Settings → ℕ
top s = length s.steps - 1

pub keep : Guard → Pass
keep g = record { guard = g; applied = none }

-- idx = i; apply_cap(STEPS[idx]); cool_since = None
pub move_to : ℕ → Pass
move_to i = record { guard = record { idx = i; cool_since = none }; applied = some i }

pub min_idx : ℕ → ℕ → ℕ
min_idx a b = if leb a b then a else b

-- The branch for a cool reading at time `now`.
pub cooling : Settings → ℕ → Guard → Pass
unfolding keep move_to
cooling s now g = elim g.cool_since [
  | none ↦ keep (record g { cool_since = some now })
  | some since ↦ if leb s.recover (now - since) then move_to (g.idx - 1) else keep g
]

-- One pass of the loop: a failed reading changes nothing.
pub pass : Settings → ℕ → Option ℕ → Guard → Pass
unfolding keep
pass s now none g = keep g
pass s now (some t) g =
    if leb s.danger t && ltb g.idx (top s)
    then move_to (min_idx (g.idx + 2) (top s))
    else if leb s.warn t && ltb g.idx (top s)
    then move_to (g.idx + 1)
    else if leb t s.cool && ltb 0 g.idx
    then cooling s now g
    else keep (record g { cool_since = none })

pub with_cap : Option ℕ → List ℕ → List ℕ
with_cap none caps = caps
with_cap (some i) caps = i ∷ caps

-- main's loop over the readings, each with the time it was taken; the caps applied, in order.
pub watch : Settings → List (ℕ × Option ℕ) → Guard → Guard × List ℕ
unfolding with_cap
watch s [] g = (g, [])
watch s ((now, reading) ∷ rs) g =
    let p = pass s now reading g in
    let (end, caps) = watch s rs p.guard in (end, with_cap p.applied caps)

pub start : Guard
start = record { idx = 0; cool_since = none }

-- apply_cap's command: the first step lifts the limit (`-rgc`), any other sets it (`-lgc`).
pub data Command : Type 0 where
  reset : Command
  lock : ℕ → ℕ → Command

pub cap_command : ℕ → ℕ → ℕ → Command
cap_command first min_clock mhz = if leb first mhz then reset else lock min_clock mhz
