-- ===== src/Forensics/Texts.antt =====
-- The lines of the log of ops/node_forensics.py and its files, one after the other.
use dmr.Prelude.{
  ℕ, ◌+◌, ◌≤◌, ◌<◌, ◌≡◌, refl, true, false, List, [], ◌∷◌, ◌++◌, Text, is_infix, arith, All,
}
use dmr.Forensics.{Files, append_line, lines_of, prune, header_matches, last_header, is_text}
use dmr.Forensics.Report.{
  Session, Loading, load_line, load_lines, kind_of, load_sessions, put_sessions, all_sessions,
}

pub is_infix-append_right : (p a b : Text) → is_infix p b ≡ true → is_infix p (a ++ b) ≡ true
unfolding is_infix
is_infix-append_right p [] b h = h
is_infix-append_right p (c ∷ a) b h = ground (arith, is_infix-append_right p a b h)

abbrev pub Below : ℕ → Files → Type 0
Below d fs = All (λ f. f.0 < d) fs

pub append_line-last :
    (d : ℕ) (l : Text) (fs : Files) (ls : List Text)
    → Below d fs
    → append_line d l (fs ++ (d, ls) ∷ []) ≡ fs ++ (d, ls ++ l ∷ []) ∷ []
unfolding append_line
append_line-last d l [] ls h = ground arith
append_line-last d l ((k, ms) ∷ fs) ls (b, h) = ground (arith, append_line-last d l fs ls h)

pub append_line-new :
    (d : ℕ) (l : Text) (fs : Files) → Below d fs → append_line d l fs ≡ fs ++ (d, l ∷ []) ∷ []
unfolding append_line
append_line-new d l [] h = refl
append_line-new d l ((k, ms) ∷ fs) (b, h) = ground (arith, append_line-new d l fs h)

lines_of-new : (d : ℕ) (fs : Files) → Below d fs → lines_of d fs ≡ []
unfolding lines_of
lines_of-new d [] h = refl
lines_of-new d ((k, ms) ∷ fs) (b, h) = ground (arith, lines_of-new d fs h)

pub header_matches-new :
    (want : Text) (d : ℕ) (fs : Files) → Below d fs → header_matches want d fs ≡ false
unfolding header_matches is_text last_header
header_matches-new want d fs h = rw (lines_of-new d fs h) refl

-- No file is older than `low`.
abbrev pub From : ℕ → Files → Type 0
From low fs = All (λ f. low ≤ f.0) fs

pub prune-From :
    (retention today low : ℕ) (fs : Files)
    → today ≤ low + retention
    → From low fs
    → prune retention today fs ≡ fs
unfolding prune
prune-From retention today low [] q h = refl
prune-From retention today low ((k, ms) ∷ fs) q (b, h) =
    ground (arith, prune-From retention today low fs q h)

pub load_lines-append :
    (xs : List Text) (l : Text) (s : Loading)
    → load_lines (xs ++ l ∷ []) s ≡ load_line (kind_of l) l (load_lines xs s)
unfolding load_lines
load_lines-append [] l s = refl
load_lines-append (x ∷ xs) l s = load_lines-append xs l (load_line (kind_of x) x s)

pub all_sessions-append :
    (fs : Files) (d : ℕ) (ls : List Text) (out : List Session)
    → all_sessions (fs ++ (d, ls) ∷ []) out ≡ put_sessions (load_sessions ls) (all_sessions fs out)
unfolding all_sessions
all_sessions-append [] d ls out = refl
all_sessions-append ((k, ms) ∷ fs) d ls out =
    all_sessions-append fs d ls (put_sessions (load_sessions ms) out)
