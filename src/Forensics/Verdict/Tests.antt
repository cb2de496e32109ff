-- ===== src/Forensics/Verdict/Tests.antt =====
-- The verdict on logs of a session that ended and of one that died.
use dmr.Prelude.{◌≡◌, refl, none, some, [], ◌∷◌, codes, has_prefix, strip}
use dmr.Forensics.Verdict.{
  is_sample, scan_line, scan, decide_in, decide_by, verdict_of, previous_session_verdict,
}

-- The newest file, whose session ended, decides over the older ones.
verdict_clean :
    previous_session_verdict (
      (9, some (codes "#BOOT_START a" ∷ codes "1,2" ∷ []))
      ∷ (10, some (codes "#BOOT_START b" ∷ codes "3,4" ∷ codes "#CLEAN_STOP ts=1" ∷ []))
      ∷ [])
    ≡ none
unfolding previous_session_verdict verdict_of scan scan_line has_prefix decide_by decide_in
    is_sample strip
verdict_clean = refl

verdict_died :
    previous_session_verdict (
      (9, some (codes "#BOOT_START a" ∷ codes "1,2" ∷ codes "#CLEAN_STOP ts=1" ∷ []))
      ∷ (10, some (codes "#BOOT_START b" ∷ codes "3,4" ∷ []))
      ∷ (11, some (codes "ts,x" ∷ []))
      ∷ (12, none)
      ∷ [])
    ≡ some (10, codes "#BOOT_START b", some (codes "3,4"))
unfolding previous_session_verdict verdict_of scan scan_line has_prefix decide_by decide_in
    is_sample strip
verdict_died = refl
