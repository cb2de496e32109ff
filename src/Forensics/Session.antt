-- ===== src/Forensics/Session.antt =====
-- A run of ops/node_forensics.py, from the start of its session to its end, as ops/crash_report.py reads it.
use dmr.Prelude.{
  ℕ, ◌+◌, ◌≤◌, ◌≡◌, refl, sym, ap, ◌∙◌, ◌⊎◌, inl, inr, Bool, true, false, Option, none, some, List,
  [], ◌∷◌, ◌++◌, ◌==◌, Text, codes, is_infix, if◌then◌else◌, arith, Bool-cases,
}
use mathlib.Core.List.{append_assoc, append-nil}
use mathlib.Core.Path.{subst}
use dmr.Forensics.{
  Files, Writer, Sample, join, append_line, close_day, resume, prune, roll, is_day, write,
  start_session, write_samples, write_stop, new_writer,
}
use dmr.Forensics.Report.{
  Session, heading, boot_start, sample, kind_of, split, new_session, fits, load_sessions, continues,
  joined, put_sessions, all_sessions, and_current,
}
use dmr.Forensics.Texts.{is_infix-append_right, Below, From, append_line-last, all_sessions-append}
use dmr.Forensics.Running.{rows_of, top, rest, put_session-top, top-own_clean, Running}
use dmr.Forensics.Continuity.{
  sample-Running, stop-Running, roll-Running, write_header-new, prune-new, opened-loaded,
}

-- From the day `d` on, days do not run backwards and nothing gets as old as the retention; each line is a sample as wide as the header.
abbrev pub Follows : List Text → ℕ → ℕ → List Sample → Type 0
Follows header limit d [] = Unit {0}
Follows header limit d (x ∷ xs) =
    (d ≤ x.day)
    × (x.day ≤ limit)
    × (kind_of x.line ≡ sample)
    × (fits (split x.line) (some (split (join header))) ≡ true)
    × Follows header limit x.day xs

abbrev pub last_day : ℕ → List Sample → ℕ
last_day d [] = d
last_day d (x ∷ xs) = last_day x.day xs

abbrev pub rows_from : List Sample → List (List Text)
rows_from [] = []
rows_from (x ∷ xs) = split x.line ∷ rows_from xs

-- The stop, if there is one, is on the last day or later.
abbrev pub StopsBy : ℕ → ℕ → Option (ℕ × Text) → Type 0
StopsBy limit d none = Unit {0}
StopsBy limit d (some (today, stamp)) = (d ≤ today) × (today ≤ limit)

abbrev pub stopped : Option (ℕ × Text) → Bool
stopped none = false
stopped (some t) = true

module _ (retention low : ℕ) (header : List Text) (past : List Session) (tail : Text)
    (heading_kind : kind_of (join header) ≡ heading) where
  abbrev pub line : Text
  line = codes "#BOOT_START" ++ tail

  again-kind : kind_of (line ++ codes " resumed=1") ≡ boot_start
  unfolding kind_of
  again-kind = refl

  again-resumed : is_infix (codes "resumed=1") (line ++ codes " resumed=1") ≡ true
  unfolding is_infix
  again-resumed = is_infix-append_right (codes "resumed=1") line (codes " resumed=1") refl

  -- The file of the day is open.
  opened-Running :
      (today : ℕ) (stamp : Text) (s : Writer × Files) (d : ℕ) (rows : List (List Text))
      → d ≤ today
      → today ≤ low + retention
      → Running header line low past s d rows false
      → Running header line low past
          (if is_day today s.0.day then s else roll retention today stamp s)
          today
          rows
          false
  unfolding is_day
  opened-Running today stamp s d rows q kept r =
      subst
        (λ (o : Option ℕ).
          Running header line low past (if is_day today o then s else roll retention today stamp s)
            today rows false)
        (sym (ap (λ w. w.day) r.writer)) (pick (Bool-cases (today == d)))
    where
      pick :
          (today == d ≡ true) ⊎ (today == d ≡ false)
          → Running header line low past
              (if today == d then s else roll retention today stamp s)
              today
              rows
              false
      pick (inl e) =
          let t : d ≡ today = ground arith in
          rw e (subst (λ n. Running header line low past s n rows false) t r)
      pick (inr e) = rw e (
          roll-Running header line low past retention today kept heading_kind stamp s d rows
            (ground arith) again-kind again-resumed r)

  pub samples-Running :
      (xs : List Sample) (s : Writer × Files) (d : ℕ) (rows : List (List Text))
      → Follows header (low + retention) d xs
      → Running header line low past s d rows false
      → Running header line low past
          (write_samples retention xs s)
          (last_day d xs)
          (rows ++ rows_from xs)
          false
  unfolding write_samples write
  samples-Running [] s d rows h r =
      subst (λ z. Running header line low past s d z false) (sym (append-nil rows)) r
  samples-Running (x ∷ xs) s d rows (q, kept, k, f, h) r =
      subst
        (λ z.
          Running header line low past (write_samples retention (x ∷ xs) s) (last_day x.day xs) z
            false)
        (append_assoc rows (split x.line ∷ []) (rows_from xs))
        (samples-Running xs (write retention x.day x.stamp x.line s) x.day
          (rows ++ split x.line ∷ []) h
          (sample-Running header line low past x.line _ x.day rows k f
            (opened-Running x.day x.stamp s d rows q kept r)))

  pub end-Running :
      (o : Option (ℕ × Text)) (s : Writer × Files) (d : ℕ) (rows : List (List Text))
      → StopsBy (low + retention) d o
      → Running header line low past s d rows false
      → (e : ℕ) × Running header line low past (write_stop retention o s) e rows (stopped o)
  unfolding write_stop write kind_of
  end-Running none s d rows h r = (d, r)
  end-Running (some (today, stamp)) s d rows (q, kept) r = (
    today,
    stop-Running header line low past (codes "#CLEAN_STOP ts=" ++ stamp) _ today rows refl
        (opened-Running today stamp s d rows q kept r),
  )

  -- What is read back.
  pub report-Running :
      (s : Writer × Files) (d : ℕ) (rows : List (List Text)) (b : Bool)
      → Running header line low past s d rows b
      → (x : Session) × (all_sessions s.1 [] ≡ x ∷ past)
        × (x.first_line ≡ line)
        × (rows_of x ≡ rows)
        × (x.clean ≡ b)
  unfolding load_sessions put_sessions and_current
  report-Running s d rows b r =
      let out = all_sessions r.older [] in
      (
        top r.now out,
        ap (λ fs. all_sessions fs []) r.files
            ∙ (all_sessions-append r.older d r.lines []
                ∙ (ap (λ u. put_sessions (and_current u.before u.current) out) r.loaded
                    ∙ (put_session-top r.now out ∙ ap (top r.now out ∷◌) r.past_rest))),
        r.first_line,
        r.rows_top,
        top-own_clean r.now out ∙ r.clean,
      )

module _ (retention low : ℕ) (header : List Text) (tail : Text)
    (heading_kind : kind_of (join header) ≡ heading) where
  -- A session starts in a file of its own.
  pub start-Running :
      (today : ℕ) (stamp : Text) (fs : Files)
      → Below today fs
      → From low fs
      → low ≤ today
      → today ≤ low + retention
      → is_infix
          (codes "resumed=1")
          (line retention low header (all_sessions fs []) tail heading_kind)
        ≡ false
      → Running header
          (codes "#BOOT_START" ++ tail)
          low
          (all_sessions fs [])
          (start_session retention today stamp
            (codes "#BOOT_START" ++ tail)
            (new_writer header, fs))
          today
          []
          false
  unfolding start_session write roll is_day new_writer close_day resume new_session kind_of
      continues
  start-Running today stamp fs below from q kept i =
      let l = codes "#BOOT_START" ++ tail in
      let past = all_sessions fs [] in
      let now = new_session l (some (split (join header))) false in
      record {
        older = fs;
        lines = join header ∷ l ∷ [];
        now = now;
        writer = refl;
        files =
            ap (λ x. append_line today l (prune retention today x))
              (write_header-new header l low past retention today kept heading_kind fs below)
            ∙ (ap (append_line today l)
                  (prune-new header l low past retention today kept heading_kind fs from q)
                ∙ append_line-last today l fs (join header ∷ []) below);
        below = below;
        from = from;
        low_day = q;
        loaded = opened-loaded header l low past retention today kept heading_kind l refl;
        latest = refl;
        clean = refl;
        first_line = ap (λ u. u.first_line) (alone past);
        rows_top = ap rows_of (alone past);
        past_rest = alone_rest past;
      }
    where
      own : Session
      own = new_session (codes "#BOOT_START" ++ tail) (some (split (join header))) false

      alone : (out : List Session) → top own out ≡ own
      alone [] = refl
      alone (p ∷ ps) = ap (λ b. if b then joined p own else own) i

      alone_rest : (out : List Session) → rest own out ≡ out
      alone_rest [] = refl
      alone_rest (p ∷ ps) = ap (λ b. if b then ps else p ∷ ps) i
