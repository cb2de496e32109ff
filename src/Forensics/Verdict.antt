-- ===== src/Forensics/Verdict.antt =====
-- ops/node_forensics.py, previous_session_verdict: did the session before end without a word.
mod Tests
use mathlib.Core.List.{reverse}
use dmr.Prelude.{
  ℕ, Bool, true, false, ◌||◌, Option, none, some, List, [], ◌∷◌, Text, codes, has_prefix, strip,
  if◌then◌else◌, ◌≡◌, refl,
}

-- last_start, whether last_stop was found, and last_sample.
pub record Scan : Type 0 where
  pub last_start : Option Text
  pub stopped : Bool
  pub last_sample : Option Text

abbrev pub nothing_seen : Scan
nothing_seen = record { last_start = none; stopped = false; last_sample = none }

unfoldable pub is_sample : Text → Bool
unfolding has_prefix
is_sample [] = false
is_sample (c ∷ l) =
    if has_prefix (codes "#") (c ∷ l) || has_prefix (codes "ts,") (c ∷ l) then false else true

-- A line of the file.
unfoldable pub scan_line : Text → Scan → Scan
unfolding has_prefix is_sample strip
scan_line l s =
    if has_prefix (codes "#BOOT_START") l
    then record s { last_start = some (strip l); stopped = false }
    else (if has_prefix (codes "#CLEAN_STOP") l
        then record s { stopped = true }
        else (if is_sample l then record s { last_sample = some (strip l) } else s))

unfoldable pub scan : List Text → Scan → Scan
unfolding scan_line
scan [] s = s
scan (l ∷ ls) s = scan ls (scan_line l s)

-- What a file decides by last_start, last_stop and last_sample, and else the rest.
unfoldable pub decide_in :
    ℕ
    → Option Text
    → Bool
    → Option Text
    → Option (ℕ × Text × Option Text)
    → Option (ℕ × Text × Option Text)
decide_in d none b x rest = rest
decide_in d (some l) true x rest = none
decide_in d (some l) false x rest = some (d, l, x)

unfoldable pub decide_by :
    ℕ → Scan → Option (ℕ × Text × Option Text) → Option (ℕ × Text × Option Text)
unfolding decide_in
decide_by d s rest = decide_in d s.last_start s.stopped s.last_sample rest

-- The loop over the files, the newest first; `none` is a file that cannot be read.
unfoldable pub verdict_of : List (ℕ × Option (List Text)) → Option (ℕ × Text × Option Text)
unfolding scan decide_by
verdict_of [] = none
verdict_of ((d, none) ∷ fs) = verdict_of fs
verdict_of ((d, some ls) ∷ fs) = decide_by d (scan ls nothing_seen) (verdict_of fs)

-- previous_session_verdict: the day of the file, the first line of the session and its last sample.
unfoldable pub previous_session_verdict :
    List (ℕ × Option (List Text)) → Option (ℕ × Text × Option Text)
unfolding verdict_of
previous_session_verdict fs = verdict_of (reverse fs)
