-- ===== src/Forensics/Running.antt =====
-- The state of a run of ops/node_forensics.py, as ops/crash_report.py would read it.
use dmr.Prelude.{
  ℕ, ◌≤◌, ◌≡◌, refl, sym, ap, ◌∙◌, Bool, true, false, some, List, [], ◌∷◌, ◌++◌, Text,
  if◌then◌else◌,
}
use mathlib.Core.List.{append_assoc, append-nil}
use dmr.Forensics.{Files, Writer, join}
use dmr.Forensics.Report.{
  Segment, Session, split, load_lines, nothing_loaded, continues, joined, put_session, all_sessions,
}
use dmr.Forensics.Texts.{Below, From}

abbrev pub rows_in : List Segment → List (List Text)
rows_in [] = []
rows_in (g ∷ gs) = g.1 ++ rows_in gs

-- The samples of a session, over all its segments.
abbrev pub rows_of : Session → List (List Text)
rows_of s = rows_in s.segments ++ s.latest.1

pub rows_in-append : (gs : List Segment) (g : Segment) → rows_in (gs ++ g ∷ []) ≡ rows_in gs ++ g.1
rows_in-append [] g = append-nil g.1
rows_in-append (x ∷ gs) g =
    ap (x.1 ++◌) (rows_in-append gs g) ∙ sym (append_assoc x.1 (rows_in gs) g.1)

-- The session that a put one ends up in, and those before it.
abbrev pub top : Session → List Session → Session
top s [] = s
top s (p ∷ ps) = if continues s then joined p s else s

abbrev pub rest : Session → List Session → List Session
rest s [] = []
rest s (p ∷ ps) = if continues s then ps else p ∷ ps

pub put_session-top :
    (s : Session) (out : List Session) → put_session s out ≡ top s out ∷ rest s out
unfolding put_session
put_session-top s [] = refl
put_session-top s (p ∷ ps) = pick (continues s)
  where
    pick :
        (b : Bool)
        → (if b then joined p s ∷ ps else s ∷ p ∷ ps)
          ≡ (if b then joined p s else s) ∷ (if b then ps else p ∷ ps)
    pick true = refl
    pick false = refl

pub top-latest :
    (s : Session) (out : List Session) (g : Segment) (b : Bool)
    → top (record s { latest = g; clean = b }) out ≡ record (top s out) { latest = g; clean = b }
unfolding continues joined
top-latest s [] g b = refl
top-latest s (p ∷ ps) g b = pick (continues s)
  where
    t : Session
    t = record s { latest = g; clean = b }

    pick :
        (c : Bool)
        → (if c then joined p t else t)
          ≡ record (if c then joined p s else s) { latest = g; clean = b }
    pick true = refl
    pick false = refl

pub top-own_latest : (s : Session) (out : List Session) → (top s out).latest ≡ s.latest
unfolding joined
top-own_latest s [] = refl
top-own_latest s (p ∷ ps) = pick (continues s)
  where
    pick : (c : Bool) → (if c then joined p s else s).latest ≡ s.latest
    pick true = refl
    pick false = refl

pub top-own_clean : (s : Session) (out : List Session) → (top s out).clean ≡ s.clean
unfolding joined
top-own_clean s [] = refl
top-own_clean s (p ∷ ps) = pick (continues s)
  where
    pick : (c : Bool) → (if c then joined p s else s).clean ≡ s.clean
    pick true = refl
    pick false = refl

-- The run has written `rows`, and is in the file of the day `d`; `past` are the sessions before it.
pub record Running (header : List Text) (line : Text) (low : ℕ) (past : List Session)
    (s : Writer × Files) (d : ℕ) (rows : List (List Text)) (b : Bool) : Type 0 where
  pub older : Files
  pub lines : List Text
  pub now : Session
  pub writer : s.0 ≡ record { header = header; day = some d; session_line = some line }
  pub files : s.1 ≡ older ++ (d, lines) ∷ []
  pub below : Below d older
  pub from : From low older
  pub low_day : low ≤ d
  pub loaded :
      load_lines lines nothing_loaded
      ≡ record { before = []; current = some now; header = some (split (join header)) }
  pub latest : now.latest.0 ≡ some (split (join header))
  pub clean : now.clean ≡ b
  pub first_line : (top now (all_sessions older [])).first_line ≡ line
  pub rows_top : rows_of (top now (all_sessions older [])) ≡ rows
  pub past_rest : rest now (all_sessions older []) ≡ past
