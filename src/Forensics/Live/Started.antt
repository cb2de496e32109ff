-- ===== src/Forensics/Live/Started.antt =====
-- What ops/crash_report.py reads in the line that ops/node_forensics.py starts a session with.
use mathlib.Core.List.{reverse, reverse-cons, append_assoc, append-nil}
use dmr.Prelude.{
  ℕ, Bool, true, false, ◌&&◌, ◌≡◌, refl, ap, sym, ◌∙◌, [], ◌∷◌, ◌++◌, Text, codes, is_space,
  text_eq, if◌then◌else◌, arith,
}
use dmr.Prelude.{put, get, partition, onto_key}
use dmr.Forensics.Probes.{words_from}
use dmr.Forensics.Live.{
  assign_if, parse_tokens, after_first, parse_start, is_same_boot, live_by, all_digits, is_running,
  session_is_live, start_line,
}

-- The text has no white space.
unfoldable pub is_word : Text → Bool
unfolding is_space
is_word [] = true
is_word (c ∷ t) = if is_space c then false else is_word t

word_head : (c : ℕ) (t : Text) → is_word (c ∷ t) ≡ true → (is_space c ≡ false) × (is_word t ≡ true)
unfolding is_word
word_head c t h = ground (arith, h)

is_word-append : (a b : Text) → is_word a ≡ true → is_word b ≡ true → is_word (a ++ b) ≡ true
unfolding is_word
is_word-append [] b h k = k
is_word-append (c ∷ a) b h k = let (n, r) = word_head c a h in rw n (is_word-append a b r k)

-- The word so far, and what follows of it.
reverse-shift : (d : ℕ) (w a : Text) → reverse (d ∷ w) ++ a ≡ reverse w ++ (d ∷ a)
reverse-shift d w a = ap (◌++ a) (reverse-cons d w) ∙ append_assoc (reverse w) (d ∷ []) a

-- A word ends at a blank.
words_from-word :
    (c : ℕ) (w a t : Text)
    → is_word a ≡ true
    → words_from (c ∷ w) (a ++ (32 ∷ t)) ≡ (reverse (c ∷ w) ++ a) ∷ words_from [] t
unfolding words_from
words_from-word c w [] t h = ap (◌∷ words_from [] t) (sym (append-nil _))
words_from-word c w (d ∷ a) t h =
    let (n, r) = word_head d a h in
    rw n (words_from-word d (c ∷ w) a t r ∙ ap (◌∷ words_from [] t) (reverse-shift d (c ∷ w) a))

words_from-last :
    (c : ℕ) (w a : Text) → is_word a ≡ true → words_from (c ∷ w) a ≡ (reverse (c ∷ w) ++ a) ∷ []
unfolding words_from
words_from-last c w [] h = ap (◌∷ []) (sym (append-nil _))
words_from-last c w (d ∷ a) h =
    let (n, r) = word_head d a h in
    rw n (words_from-last d (c ∷ w) a r ∙ ap (◌∷ []) (reverse-shift d (c ∷ w) a))

words-start_line :
    (ts boot interval pid : Text)
    → is_word ts ≡ true
    → is_word boot ≡ true
    → is_word interval ≡ true
    → is_word pid ≡ true
    → words_from [] (start_line ts boot interval pid)
      ≡ codes "#BOOT_START"
        ∷ (codes "ts=" ++ ts)
        ∷ (codes "boot_id=" ++ boot)
        ∷ (codes "interval=" ++ (interval ++ codes "s"))
        ∷ (codes "pid=" ++ pid)
        ∷ []
unfolding words_from start_line is_space is_word
words-start_line ts boot interval pid a b c d =
    let after_boot = codes "interval=" ++ (interval ++ (codes "s pid=" ++ pid)) in
    let third =
      ap (λ i. words_from [] (codes "interval=" ++ i))
        (sym (append_assoc interval (codes "s") (codes " pid=" ++ pid)))
      ∙ words_from-word 61 (codes "lavretni") (interval ++ codes "s") (codes "pid=" ++ pid)
          (is_word-append interval (codes "s") c refl)
      ∙ ap (◌∷◌ (codes "interval=" ++ (interval ++ codes "s")))
          (words_from-last 61 (codes "dip") pid d) in
    let second =
      words_from-word 61 (codes "di_toob") boot after_boot b
      ∙ ap (◌∷◌ (codes "boot_id=" ++ boot)) third in
    ap (◌∷◌ (codes "#BOOT_START")) (
      words_from-word 61 (codes "st") ts (codes "boot_id=" ++ (boot ++ (32 ∷ after_boot))) a
      ∙ ap (◌∷◌ (codes "ts=" ++ ts)) second)

both : (x y z : Bool) → y ≡ true → (if x then (if y then z else false) else false) ≡ (x && z)
both true y z h = rw h refl
both false y z h = refl

-- Where the parts of the line have no white space and the pid is of digits and not empty, the crash report takes a session for the
-- running one exactly when its line has the boot id of the system and there is a process with its pid.
pub session_is_live-start_line :
    (current : Text) (exists : Text → Bool) (ts boot interval : Text) (d : ℕ) (ds : Text)
    → is_word ts ≡ true
    → is_word boot ≡ true
    → is_word interval ≡ true
    → is_word (d ∷ ds) ≡ true
    → all_digits (d ∷ ds) ≡ true
    → session_is_live current exists (start_line ts boot interval (d ∷ ds))
      ≡ (text_eq boot current && exists (d ∷ ds))
unfolding session_is_live live_by parse_start after_first parse_tokens partition onto_key assign_if
    put get text_eq is_same_boot is_running
session_is_live-start_line current exists ts boot interval d ds a b c e h =
    ap (λ ws. live_by current exists (after_first ws))
      (words-start_line ts boot interval (d ∷ ds) a b c e)
    ∙ both (text_eq boot current) (all_digits (d ∷ ds)) (exists (d ∷ ds)) h
