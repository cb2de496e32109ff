-- ===== src/Forensics/RoundTrip.antt =====
-- What ops/node_forensics.py logs and ops/crash_report.py reads again.
use dmr.Prelude.{ℕ, ◌+◌, ◌≤◌, ◌≡◌, false, Option, List, [], ◌∷◌, ◌++◌, Text, codes, is_infix}
use dmr.Forensics.{Files, Sample, join, start_session, write_samples, write_stop, new_writer}
use dmr.Forensics.Report.{Session, heading, kind_of, all_sessions}
use dmr.Forensics.Texts.{Below, From}
use dmr.Forensics.Running.{rows_of}
use dmr.Forensics.Session.{
  Follows, last_day, rows_from, StopsBy, stopped, start-Running, samples-Running, end-Running,
  report-Running,
}

-- A run of main: the session's first line, the samples, and the end if it was reached.
abbrev pub logged :
    ℕ → List Text → Files → ℕ → Text → Text → List Sample → Option (ℕ × Text) → Files
logged retention header fs today stamp tail xs stop =
    (write_stop retention stop (
      write_samples retention xs (
        start_session retention today stamp (codes "#BOOT_START" ++ tail)
          (new_writer header, fs)))).1

-- A run that starts in a file of its own, on days that do not run backwards and that the retention spans, is read back as one
-- session after those before it, however many midnights it passes: with its first line, all its samples in order, and clean just
-- if it reached its end.
pub all_sessions-logged :
    (retention low : ℕ) (header : List Text) (fs : Files) (today : ℕ) (stamp tail : Text)
    (xs : List Sample) (stop : Option (ℕ × Text))
    → kind_of (join header) ≡ heading
    → is_infix (codes "resumed=1") (codes "#BOOT_START" ++ tail) ≡ false
    → Below today fs
    → From low fs
    → low ≤ today
    → today ≤ low + retention
    → Follows header (low + retention) today xs
    → StopsBy (low + retention) (last_day today xs) stop
    → (x : Session) × (all_sessions (logged retention header fs today stamp tail xs stop) []
        ≡ x ∷ all_sessions fs [])
      × (x.first_line ≡ codes "#BOOT_START" ++ tail)
      × (rows_of x ≡ rows_from xs)
      × (x.clean ≡ stopped stop)
all_sessions-logged retention low header fs today stamp tail xs stop k i below from q kept f e =
    let past = all_sessions fs [] in
    let begun = start-Running retention low header tail k today stamp fs below from q kept i in
    let run = samples-Running retention low header past tail k xs _ today [] f begun in
    let (d, finished) =
      end-Running retention low header past tail k stop _ (last_day today xs) (rows_from xs) e
        run in
    report-Running retention low header past tail k _ d (rows_from xs) (stopped stop) finished
