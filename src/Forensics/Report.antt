-- ===== src/Forensics/Report.antt =====
-- ops/crash_report.py: the sessions that the log files hold.
use dmr.Prelude.{
  ℕ, suc, Bool, true, false, ◌||◌, Option, none, some, List, [], ◌∷◌, ◌++◌, ◌==◌, length, Text,
  codes, has_prefix, is_infix, if◌then◌else◌,
}
use dmr.Forensics.{Files}

-- A header and the rows under it.
abbrev pub Segment : Type 0
Segment = Option (List Text) × List (List Text)

-- A session; its last segment is `latest`. The keys `file`, `stop` and `rolled` are left out.
pub record Session : Type 0 where
  pub first_line : Text
  pub segments : List Segment
  pub latest : Segment
  pub clean : Bool
  pub implicit : Bool
  pub skipped : ℕ

-- The variables of load_sessions: the sessions before the current one, the current one and the header.
pub record Loading : Type 0 where
  pub before : List Session
  pub current : Option Session
  pub header : Option (List Text)

pub data LineKind : Type 0 where
  blank heading boot_start clean_stop rollover sample : LineKind

unfoldable pub kind_of : Text → LineKind
unfolding has_prefix
kind_of [] = blank
kind_of (c ∷ t) =
    if has_prefix (codes "ts,") (c ∷ t)
    then heading
    else (if has_prefix (codes "#BOOT_START") (c ∷ t)
        then boot_start
        else (if has_prefix (codes "#CLEAN_STOP") (c ∷ t)
            then clean_stop
            else (if has_prefix (codes "#ROLLOVER") (c ∷ t) then rollover else sample)))

unfoldable pub onto_first : ℕ → List Text → List Text
onto_first c [] = (c ∷ []) ∷ []
onto_first c (f ∷ fs) = (c ∷ f) ∷ fs

-- line.split(",")
unfoldable pub split : Text → List Text
unfolding onto_first
split [] = [] ∷ []
split (c ∷ t) = if c == b',' then [] ∷ split t else onto_first c (split t)

unfoldable pub new_segment : Option (List Text) → Option Session → Option Session
new_segment h none = none
new_segment h (some s) =
    some (record s { segments = s.segments ++ s.latest ∷ []; latest = (h, []) })

unfoldable pub new_session : Text → Option (List Text) → Bool → Session
new_session l h implicit = record {
  first_line = l;
  segments = [];
  latest = (h, []);
  clean = false;
  implicit = implicit;
  skipped = 0;
}

unfoldable pub and_current : List Session → Option Session → List Session
and_current before none = before
and_current before (some s) = before ++ s ∷ []

unfoldable pub set_clean : Option Session → Option Session
set_clean none = none
set_clean (some s) = some (record s { clean = true })

unfoldable pub fits : List Text → Option (List Text) → Bool
fits fields none = true
fits fields (some h) = length fields == length h

unfoldable pub add_row : List Text → Session → Session
unfolding fits
add_row fields s =
    if fits fields s.latest.0
    then record s { latest = (s.latest.0, s.latest.1 ++ fields ∷ []) }
    else record s { skipped = suc s.skipped }

-- A sample before any marker opens a session of its own.
unfoldable pub or_implicit : Option (List Text) → Option Session → Session
unfolding new_session
or_implicit h none = new_session (codes "#CONTINUACION (sin marcador)") h true
or_implicit h (some s) = s

unfoldable pub load_line : LineKind → Text → Loading → Loading
unfolding split new_segment new_session and_current set_clean add_row or_implicit
load_line blank l s = s
load_line heading l s = record s {
  header = some (split l);
  current = new_segment (some (split l)) s.current;
}
load_line boot_start l s = record s {
  before = and_current s.before s.current;
  current = some (new_session l s.header false);
}
load_line clean_stop l s = record s { current = set_clean s.current }
load_line rollover l s = s
load_line sample l s = record s {
  current = some (add_row (split l) (or_implicit s.header s.current));
}

unfoldable pub load_lines : List Text → Loading → Loading
unfolding load_line kind_of
load_lines [] s = s
load_lines (l ∷ ls) s = load_lines ls (load_line (kind_of l) l s)

abbrev pub nothing_loaded : Loading
nothing_loaded = record { before = []; current = none; header = none }

-- load_sessions
unfoldable pub load_sessions : List Text → List Session
unfolding load_lines and_current
load_sessions ls = let s = load_lines ls nothing_loaded in and_current s.before s.current

unfoldable pub continues : Session → Bool
unfolding is_infix
continues s = s.implicit || is_infix (codes "resumed=1") s.first_line

-- The session is joined to the one before.
unfoldable pub joined : Session → Session → Session
joined p s = record p {
  segments = p.segments ++ (p.latest ∷ s.segments);
  latest = s.latest;
  clean = s.clean;
}

-- One more session; the newest stands first.
unfoldable pub put_session : Session → List Session → List Session
unfolding continues joined
put_session s [] = s ∷ []
put_session s (p ∷ ps) = if continues s then joined p s ∷ ps else s ∷ p ∷ ps

unfoldable pub put_sessions : List Session → List Session → List Session
unfolding put_session
put_sessions [] out = out
put_sessions (s ∷ ss) out = put_sessions ss (put_session s out)

-- all_sessions, the newest first.
unfoldable pub all_sessions : Files → List Session → List Session
unfolding load_sessions put_sessions
all_sessions [] out = out
all_sessions ((k, ls) ∷ fs) out = all_sessions fs (put_sessions (load_sessions ls) out)
