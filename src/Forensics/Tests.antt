-- ===== src/Forensics/Tests.antt =====
-- A run over midnight, after one that died.
use dmr.Prelude.{ℕ, ◌≡◌, refl, Option, some, List, [], ◌∷◌, ◌++◌, Text, codes, is_infix, arith}
use dmr.Forensics.{Files, Sample, join}
use dmr.Forensics.Report.{Session, kind_of, all_sessions, split}
use dmr.Forensics.Running.{rows_of}
use dmr.Forensics.Session.{rows_from, stopped}
use dmr.Forensics.RoundTrip.{logged, all_sessions-logged}

abbrev columns : List Text
columns = codes "ts" ∷ codes "gpu_c" ∷ []

abbrev died : Files
died = (9, codes "ts,gpu_c" ∷ codes "#BOOT_START boot_id=a" ∷ codes "08:00,40" ∷ []) ∷ []

abbrev two_days : List Sample
two_days =
    record { day = 10; stamp = codes "23:59"; line = codes "23:59,50" }
    ∷ record { day = 11; stamp = codes "00:00"; line = codes "00:00,51" }
    ∷ []

abbrev at_noon : Option (ℕ × Text)
at_noon = some (11, codes "12:00")

all_sessions-logged_example :
    (x : Session) × (all_sessions
        (logged 21 columns died 10 (codes "23:50") (codes " boot_id=b") two_days at_noon)
        []
      ≡ x ∷ all_sessions died [])
    × (x.first_line ≡ codes "#BOOT_START" ++ codes " boot_id=b")
    × (rows_of x ≡ rows_from two_days)
    × (x.clean ≡ stopped at_noon)
unfolding kind_of join is_infix split dmr.Forensics.Report.fits
all_sessions-logged_example =
    all_sessions-logged 21 9 columns died 10 (codes "23:50") (codes " boot_id=b") two_days at_noon
      refl refl (omega arith, tt) (omega arith, tt) (omega arith) (omega arith)
      (omega arith, omega arith, refl, refl, (omega arith, omega arith, refl, refl, tt))
      (omega arith, omega arith)
