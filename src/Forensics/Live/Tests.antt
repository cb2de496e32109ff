-- ===== src/Forensics/Live/Tests.antt =====
-- The running session, a session of a boot before, and one whose process is gone.
use dmr.Prelude.{Bool, true, false, ◌&&◌, ◌≡◌, refl, none, [], ◌∷◌, Text, codes, is_space, text_eq}
use dmr.Forensics.Report.{Session, new_session}
use dmr.Prelude.{put, get, partition, onto_key}
use dmr.Forensics.Probes.{words_from}
use dmr.Forensics.Live.{
  start_line, session_is_live, all_digits, dirty, live_by, parse_start, after_first, parse_tokens,
  assign_if, is_same_boot, is_running,
}
use dmr.Forensics.Live.Started.{is_word, session_is_live-start_line}

abbrev only_42 : Text → Bool
only_42 t = text_eq t (codes "42")

session_is_live-start_line_example :
    session_is_live
      (codes "b-1")
      only_42
      (start_line (codes "2025") (codes "b-1") (codes "15.0") (codes "42"))
    ≡ (text_eq (codes "b-1") (codes "b-1") && only_42 (codes "42"))
unfolding is_word is_space all_digits
session_is_live-start_line_example =
    session_is_live-start_line (codes "b-1") only_42 (codes "2025") (codes "b-1") (codes "15.0") 52
      (codes "2") refl refl refl refl refl

abbrev of_boot : Text → Text → Session
of_boot boot pid = new_session (start_line (codes "2025") boot (codes "15.0") pid) none false

-- The one before the boot died, and the one that still runs did not.
dirty_others :
    dirty (codes "b-1") only_42 (
      of_boot (codes "b-0") (codes "42")
      ∷ record (of_boot (codes "b-1") (codes "41")) { clean = true }
      ∷ of_boot (codes "b-1") (codes "42")
      ∷ [])
    ≡ of_boot (codes "b-0") (codes "42") ∷ []
unfolding dirty session_is_live live_by parse_start after_first parse_tokens partition onto_key
    assign_if put get text_eq is_same_boot is_running all_digits words_from is_space start_line
    new_session
dirty_others = refl
