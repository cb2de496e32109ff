-- ===== src/Thermal/Tests.antt =====
-- Runs of ops/thermal_guard.py with its default settings, and instances of its theorems.
use dmr.Prelude.{ℕ, ◌+◌, ◌-◌, ◌≤◌, ◌<◌, ◌≡◌, refl, Option, none, some, List, [], ◌∷◌, arith, All}
use dmr.Thermal.{Settings, top, min_idx, cooling, pass, watch, start}
use dmr.Thermal.Bounds.{InLadder, watch-InLadder}
use dmr.Thermal.Recovery.{Spell, history, recovery_is_earned}

-- Degrees times ten, milliseconds.
abbrev defaults : Settings
defaults = record {
  warn = 800;
  danger = 830;
  cool = 720;
  steps = 3003 ∷ 2400 ∷ 2100 ∷ 1900 ∷ 1700 ∷ 1500 ∷ [];
  recover = 120000;
}

abbrev readings : List (ℕ × Option ℕ)
readings =
    (0, some 810) ∷ (2000, some 840) ∷ (4000, none) ∷ (6000, some 700) ∷ (66000, some 710) ∷ []

readings_run :
    watch defaults readings start ≡ (record { idx = 3; cool_since = some 6000 }, 1 ∷ 3 ∷ [])
unfolding watch pass cooling min_idx top start
readings_run = refl

watch-InLadder_example :
    InLadder defaults (watch defaults readings start).0
    × All (λ i. i ≤ top defaults) (watch defaults readings start).1
unfolding start
watch-InLadder_example = watch-InLadder defaults readings start (omega arith)

gives_back :
    (pass defaults 130000 (some 715) (watch defaults readings start).0).guard.idx
    < (watch defaults readings start).0.idx
unfolding watch pass cooling min_idx top start
gives_back = omega arith

recovery_is_earned_example :
    (t since : ℕ) × (◌≡◌ {A = Option ℕ} (some 715) (some t))
    × (t ≤ defaults.cool)
    × Spell defaults since (history readings [])
    × (defaults.recover ≤ 130000 - since)
    × ((pass defaults 130000 (some 715) (watch defaults readings start).0).guard.idx + 1
        ≡ (watch defaults readings start).0.idx)
recovery_is_earned_example = recovery_is_earned defaults readings 130000 (some 715) gives_back
