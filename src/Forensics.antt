-- ===== src/Forensics.antt =====
-- ops/node_forensics.py, class Writer, and ops/crash_report.py: the log of hardware samples, written and read again.
-- Days are ordinals. A file is the list of its lines, and the directory lists the files by day, the order of their names.
pub mod Report
pub mod Texts
pub mod Running
pub mod Continuity
pub mod Session
pub mod RoundTrip
pub mod Probes
pub mod Rows
pub mod Live
pub mod Verdict
mod Tests
use dmr.Prelude.{
  ℕ, ◌-◌, Bool, true, false, ◌&&◌, ◌||◌, not, Option, none, some, List, [], ◌∷◌, ◌++◌, ◌==◌, ltb,
  Text, codes, text_eq, has_prefix, if◌then◌else◌,
}

abbrev pub Files : Type 0
Files = List (ℕ × List Text)

pub record Writer : Type 0 where
  pub header : List Text
  pub day : Option ℕ
  pub session_line : Option Text

-- ",".join(fields)
unfoldable pub join : List Text → Text
join [] = []
join (f ∷ []) = f
join (f ∷ g ∷ fs) = f ++ (codes "," ++ join (g ∷ fs))

unfoldable pub lines_of : ℕ → Files → List Text
lines_of d [] = []
lines_of d ((k, ls) ∷ fs) = if k == d then ls else lines_of d fs

-- A line at the end of the day's file, which is made if it is not there.
unfoldable pub append_line : ℕ → Text → Files → Files
append_line d l [] = (d, l ∷ []) ∷ []
append_line d l ((k, ls) ∷ fs) =
    if k == d
    then (k, ls ++ l ∷ []) ∷ fs
    else (if ltb d k then (d, l ∷ []) ∷ (k, ls) ∷ fs else (k, ls) ∷ append_line d l fs)

-- The last line that begins with "ts,".
unfoldable pub last_header : Option Text → List Text → Option Text
unfolding has_prefix
last_header last [] = last
last_header last (l ∷ ls) = last_header (if has_prefix (codes "ts,") l then some l else last) ls

unfoldable pub is_text : Text → Option Text → Bool
unfolding text_eq
is_text t none = false
is_text t (some s) = text_eq s t

-- `not fresh and _header_matches(path)`; a file that is not there has no line.
unfoldable pub header_matches : Text → ℕ → Files → Bool
unfolding is_text last_header lines_of
header_matches want d fs = is_text want (last_header none (lines_of d fs))

-- _prune, for RETENTION_DAYS.
unfoldable pub prune : ℕ → ℕ → Files → Files
prune retention today [] = []
prune retention today ((k, ls) ∷ fs) =
    if ltb k (today - retention)
    then prune retention today fs
    else (k, ls) ∷ prune retention today fs

-- The end of the old file, if one is open.
unfoldable pub close_day : Option ℕ → Text → Files → Files
unfolding append_line
close_day none stamp fs = fs
close_day (some d) stamp fs = append_line d (codes "#ROLLOVER ts=" ++ stamp) fs

unfoldable pub write_header : Text → ℕ → Files → Files
unfolding header_matches append_line
write_header want d fs = if header_matches want d fs then fs else append_line d want fs

unfoldable pub resume : Option Text → ℕ → Files → Files
unfolding append_line
resume none d fs = fs
resume (some l) d fs = append_line d (l ++ codes " resumed=1") fs

-- _roll
unfoldable pub roll : ℕ → ℕ → Text → Writer × Files → Writer × Files
unfolding close_day write_header prune resume join
roll retention today stamp (w, fs) = (
  record w { day = some today },
  resume w.session_line today
      (prune retention today (write_header (join w.header) today (close_day w.day stamp fs))),
)

unfoldable pub is_day : ℕ → Option ℕ → Bool
is_day today none = false
is_day today (some d) = today == d

-- write
unfoldable pub write : ℕ → ℕ → Text → Text → Writer × Files → Writer × Files
unfolding roll append_line is_day
write retention today stamp text s =
    let r = if is_day today s.0.day then s else roll retention today stamp s in
    (r.0, append_line today text r.1)

-- start_session
unfoldable pub start_session : ℕ → ℕ → Text → Text → Writer × Files → Writer × Files
unfolding write
start_session retention today stamp line s =
    let r = write retention today stamp line s in (record r.0 { session_line = some line }, r.1)

-- A sample: the day and the time it is written, and its line.
pub record Sample : Type 0 where
  pub day : ℕ
  pub stamp : Text
  pub line : Text

-- The loop of main.
unfoldable pub write_samples : ℕ → List Sample → Writer × Files → Writer × Files
unfolding write
write_samples retention [] s = s
write_samples retention (x ∷ xs) s =
    write_samples retention xs (write retention x.day x.stamp x.line s)

-- The end of main, if it was reached.
unfoldable pub write_stop : ℕ → Option (ℕ × Text) → Writer × Files → Writer × Files
unfolding write
write_stop retention none s = s
write_stop retention (some (today, stamp)) s =
    write retention today stamp (codes "#CLEAN_STOP ts=" ++ stamp) s

unfoldable pub new_writer : List Text → Writer
new_writer header = record { header = header; day = none; session_line = none }
