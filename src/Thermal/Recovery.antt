-- ===== src/Thermal/Recovery.antt =====
-- The hysteresis of ops/thermal_guard.py: the clock is given back one step at a time, after a spell
-- in which every reading was cool.
use mathlib.Core.Path.{subst}
use dmr.Prelude.{
  sym, Option-cases, ℕ, ◌+◌, ◌-◌, ◌≤◌, ◌<◌, ◌≡◌, refl, ◌⊎◌, inl, inr, Option, none, some, List, [],
  ◌∷◌, arith,
}
use dmr.Thermal.{Settings, Guard, min_idx, cooling, pass, watch, start}

-- In a history, latest first, every reading back to time `since` was at most COOL_C.
abbrev pub Spell : Settings → ℕ → List (ℕ × Option ℕ) → Type 0
Spell s since [] = ⊥
Spell s since ((now, none) ∷ rs) = Spell s since rs
Spell s since ((now, some t) ∷ rs) = (t ≤ s.cool) × ((now ≡ since) ⊎ Spell s since rs)

abbrev pub Justified : Settings → List (ℕ × Option ℕ) → Option ℕ → Type 0
Justified s rs none = Unit {0}
Justified s rs (some since) = Spell s since rs

pass_cool_since :
    (s : Settings) (now t : ℕ) (g : Guard)
    → let o = (pass s now (some t) g).guard.cool_since in
      (o ≡ none) ⊎ (t ≤ s.cool) × (o ≡ some now) ⊎ (t ≤ s.cool) × (o ≡ g.cool_since)
unfolding pass cooling
pass_cool_since s now t g = ground arith

Justified-none :
    (s : Settings) (now : ℕ) (rs : List (ℕ × Option ℕ)) (o : Option ℕ)
    → Justified s rs o
    → Justified s ((now, none) ∷ rs) o
Justified-none s now rs none h = tt
Justified-none s now rs (some since) h = h

Justified-some :
    (s : Settings) (now t : ℕ) (rs : List (ℕ × Option ℕ)) (o : Option ℕ)
    → t ≤ s.cool
    → Justified s rs o
    → Justified s ((now, some t) ∷ rs) o
Justified-some s now t rs none c h = tt
Justified-some s now t rs (some since) c h = (c, inr h)

-- The guard remembers a cooling spell only while it lasts.
pass-Justified :
    (s : Settings) (now : ℕ) (r : Option ℕ) (rs : List (ℕ × Option ℕ)) (g : Guard)
    → Justified s rs g.cool_since
    → Justified s ((now, r) ∷ rs) (pass s now r g).guard.cool_since
unfolding pass
pass-Justified s now none rs g h = Justified-none s now rs g.cool_since h
pass-Justified s now (some t) rs g h = shut (pass_cool_since s now t g)
  where
    J : Option ℕ → Type 0
    J = Justified s ((now, some t) ∷ rs)

    shut :
        let o = (pass s now (some t) g).guard.cool_since in
        (o ≡ none) ⊎ (t ≤ s.cool) × (o ≡ some now) ⊎ (t ≤ s.cool) × (o ≡ g.cool_since)
        → J (pass s now (some t) g).guard.cool_since
    shut (inl e) = subst J (sym e) tt
    shut (inr (inl (c, e))) = subst J (sym e) (c, inl refl)
    shut (inr (inr (c, e))) = subst J (sym e) (Justified-some s now t rs g.cool_since c h)

-- A pass that gives clock back gives back one step, on a cool reading, at least RECOVER_S after the
-- start of a remembered spell.
pass_up :
    (s : Settings) (now : ℕ) (r : Option ℕ) (g : Guard)
    → (pass s now r g).guard.idx < g.idx
    → (t since : ℕ) × (r ≡ some t)
      × (t ≤ s.cool)
      × (g.cool_since ≡ some since)
      × (s.recover ≤ now - since)
      × ((pass s now r g).guard.idx + 1 ≡ g.idx)
unfolding pass cooling min_idx
pass_up s now none g h = absurd (omega arith)
pass_up s now (some t) g h = elim (Option-cases g.cool_since) [
  | inl e ↦ absurd (ground arith)
  | inr (since, e) ↦ (t, since, refl, ground arith, e, ground arith, ground arith)
]

-- The readings of a run, latest first, in front of those before it.
abbrev pub history : List (ℕ × Option ℕ) → List (ℕ × Option ℕ) → List (ℕ × Option ℕ)
history [] before = before
history (r ∷ rs) before = history rs (r ∷ before)

watch-Justified :
    (s : Settings) (rs before : List (ℕ × Option ℕ)) (g : Guard)
    → Justified s before g.cool_since
    → Justified s (history rs before) (watch s rs g).0.cool_since
unfolding watch
watch-Justified s [] before g h = h
watch-Justified s ((now, r) ∷ rs) before g h =
    watch-Justified s rs ((now, r) ∷ before) _ (pass-Justified s now r before g h)

-- After any readings since the start, a pass gives clock back only if the last RECOVER_S or more
-- were cool: all readings since some time at least RECOVER_S ago were at most COOL_C, and so is
-- this one. It gives back one step.
pub recovery_is_earned :
    (s : Settings) (rs : List (ℕ × Option ℕ)) (now : ℕ) (r : Option ℕ)
    → (pass s now r (watch s rs start).0).guard.idx < (watch s rs start).0.idx
    → (t since : ℕ) × (r ≡ some t)
      × (t ≤ s.cool)
      × Spell s since (history rs [])
      × (s.recover ≤ now - since)
      × ((pass s now r (watch s rs start).0).guard.idx + 1 ≡ (watch s rs start).0.idx)
recovery_is_earned s rs now r h =
    let (t, since, e, c, q, w, d) = pass_up s now r (watch s rs start).0 h in
    (
      t,
      since,
      e,
      c,
      subst (Justified s (history rs [])) q (watch-Justified s rs [] start (unfold start in tt)),
      w,
      d,
    )
