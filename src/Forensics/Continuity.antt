-- ===== src/Forensics/Continuity.antt =====
-- A run of ops/node_forensics.py is one session for ops/crash_report.py, however many days it lasts.
use dmr.Prelude.{
  ℕ, ◌+◌, ◌≤◌, ◌<◌, ◌≡◌, refl, sym, ap, ◌∙◌, Bool, true, false, some, List, [], ◌∷◌, ◌++◌, Text,
  codes, is_infix, if◌then◌else◌, arith, All-append,
}
use mathlib.Core.List.{append_assoc, append-nil}
use dmr.Forensics.{Files, Writer, join, append_line, close_day, write_header, resume, prune, roll}
use dmr.Forensics.Report.{
  Segment, Session, LineKind, heading, boot_start, clean_stop, rollover, sample, kind_of, split,
  new_session, add_row, fits, load_line, load_lines, nothing_loaded, load_sessions, continues,
  joined, put_sessions, all_sessions, set_clean, or_implicit, and_current, new_segment,
}
use dmr.Forensics.Texts.{
  Below, From, append_line-last, append_line-new, header_matches-new, prune-From, load_lines-append,
  all_sessions-append,
}
use dmr.Forensics.Running.{
  rows_in, rows_of, rows_in-append, top, rest, put_session-top, top-latest, top-own_latest, Running,
}

module _ (header : List Text) (line : Text) (low : ℕ) (past : List Session) where
  -- The session that is being read, with a last segment and mark that are new.
  changed-loaded :
      (l : Text) (k : LineKind) (s : Writer × Files) (d : ℕ) (rows : List (List Text)) (b : Bool)
      (r : Running header line low past s d rows b) (now : Session)
      → kind_of l ≡ k
      → load_line k l
          (record { before = []; current = some r.now; header = some (split (join header)) })
        ≡ record { before = []; current = some now; header = some (split (join header)) }
      → load_lines (r.lines ++ l ∷ []) nothing_loaded
        ≡ record { before = []; current = some now; header = some (split (join header)) }
  changed-loaded l k s d rows b r now q e =
      load_lines-append r.lines l nothing_loaded ∙ (rw (q, r.loaded) e)

  append_line-Running :
      (l : Text) (s : Writer × Files) (d : ℕ) (rows : List (List Text)) (b : Bool)
      (r : Running header line low past s d rows b)
      → append_line d l s.1 ≡ r.older ++ (d, r.lines ++ l ∷ []) ∷ []
  append_line-Running l s d rows b r =
      ap (append_line d l) r.files ∙ append_line-last d l r.older r.lines r.below

  pub sample-Running :
      (l : Text) (s : Writer × Files) (d : ℕ) (rows : List (List Text))
      → kind_of l ≡ sample
      → fits (split l) (some (split (join header))) ≡ true
      → Running header line low past s d rows false
      → Running header line low past (s.0, append_line d l s.1) d (rows ++ split l ∷ []) false
  unfolding load_line add_row or_implicit continues
  sample-Running l s d rows k f r =
      let g : Segment = (r.now.latest.0, r.now.latest.1 ++ split l ∷ []) in
      let now = record r.now { latest = g } in
      let out = all_sessions r.older [] in
      let same = top-latest r.now out g r.now.clean in
      record {
        older = r.older;
        lines = r.lines ++ l ∷ [];
        now = now;
        writer = r.writer;
        files = append_line-Running l s d rows false r;
        below = r.below;
        from = r.from;
        low_day = r.low_day;
        loaded = changed-loaded l sample s d rows false r now k (rw (r.latest, f) refl);
        latest = r.latest;
        clean = r.clean;
        first_line = ap (λ t. t.first_line) same ∙ r.first_line;
        rows_top =
            ap rows_of same
            ∙ (sym (append_assoc (rows_in (top r.now out).segments) r.now.latest.1 (split l ∷ []))
                ∙ ap (◌++ split l ∷ []) (
                    ap (λ g. rows_in (top r.now out).segments ++ g.1)
                      (sym (top-own_latest r.now out))
                    ∙ r.rows_top));
        past_rest = r.past_rest;
      }

  pub stop-Running :
      (l : Text) (s : Writer × Files) (d : ℕ) (rows : List (List Text))
      → kind_of l ≡ clean_stop
      → Running header line low past s d rows false
      → Running header line low past (s.0, append_line d l s.1) d rows true
  unfolding load_line set_clean continues
  stop-Running l s d rows k r =
      let now = record r.now { clean = true } in
      let out = all_sessions r.older [] in
      let same = top-latest r.now out r.now.latest true in
      record {
        older = r.older;
        lines = r.lines ++ l ∷ [];
        now = now;
        writer = r.writer;
        files = append_line-Running l s d rows false r;
        below = r.below;
        from = r.from;
        low_day = r.low_day;
        loaded = changed-loaded l clean_stop s d rows false r now k refl;
        latest = r.latest;
        clean = refl;
        first_line = ap (λ t. t.first_line) same ∙ r.first_line;
        rows_top =
            ap rows_of same
            ∙ (ap (λ g. rows_in (top r.now out).segments ++ g.1) (sym (top-own_latest r.now out))
                ∙ r.rows_top);
        past_rest = r.past_rest;
      }

  module _ (retention today : ℕ) (kept : today ≤ low + retention)
      (heading_kind : kind_of (join header) ≡ heading) where
    pub write_header-new :
        (fs : Files)
        → Below today fs
        → write_header (join header) today fs ≡ fs ++ (today, join header ∷ []) ∷ []
    unfolding write_header
    write_header-new fs h =
        rw (header_matches-new (join header) today fs h) (append_line-new today (join header) fs h)

    pub prune-new :
        (fs : Files)
        → From low fs
        → low ≤ today
        → prune retention today (fs ++ (today, join header ∷ []) ∷ [])
          ≡ fs ++ (today, join header ∷ []) ∷ []
    prune-new fs h q =
        prune-From retention today low (fs ++ (today, join header ∷ []) ∷ []) kept
          (All-append (λ f. low ≤ f.0) fs ((today, join header ∷ []) ∷ []) h (q, tt))

    -- A file that begins with the header and the first line of a session.
    pub opened-loaded :
        (l : Text)
        → kind_of l ≡ boot_start
        → load_lines (join header ∷ l ∷ []) nothing_loaded ≡ record {
          before = [];
          current = some (new_session l (some (split (join header))) false);
          header = some (split (join header));
        }
    unfolding load_lines load_line and_current new_segment
    opened-loaded l k = rw (heading_kind, k) refl

    pub Below-mono : (d : ℕ) (fs : Files) → d ≤ today → Below d fs → Below today fs
    Below-mono d [] q h = tt
    Below-mono d (f ∷ fs) q (b, h) = (omega arith, Below-mono d fs q h)

    abbrev again : Text
    again = line ++ codes " resumed=1"

    abbrev closing : Text → Text
    closing stamp = codes "#ROLLOVER ts=" ++ stamp

    abbrev closed :
        Text
        → (s : Writer × Files) (d : ℕ) (rows : List (List Text))
        → Running header line low past s d rows false
        → Files
    closed stamp s d rows r = r.older ++ (d, r.lines ++ closing stamp ∷ []) ∷ []

    roll-files :
        (stamp : Text) (s : Writer × Files) (d : ℕ) (rows : List (List Text))
        (r : Running header line low past s d rows false)
        → Below today (closed stamp s d rows r)
        → From low (closed stamp s d rows r)
        → low ≤ today
        → (roll retention today stamp s).1
          ≡ closed stamp s d rows r ++ (today, join header ∷ again ∷ []) ∷ []
    unfolding roll close_day resume
    roll-files stamp s d rows r below from q = rw r.writer (
        ap
          (λ x.
            append_line today again (prune retention today (write_header (join header) today x)))
          (append_line-Running (closing stamp) s d rows false r)
        ∙ (ap (λ x. append_line today again (prune retention today x))
              (write_header-new (closed stamp s d rows r) below)
            ∙ (ap (append_line today again) (prune-new (closed stamp s d rows r) from q)
                ∙ append_line-last today again (closed stamp s d rows r) (join header ∷ []) below)))

    -- The sessions of the closed files.
    closed-sessions :
        (stamp : Text) (s : Writer × Files) (d : ℕ) (rows : List (List Text))
        (r : Running header line low past s d rows false)
        → all_sessions (closed stamp s d rows r) []
          ≡ top r.now (all_sessions r.older []) ∷ rest r.now (all_sessions r.older [])
    unfolding load_sessions put_sessions and_current load_line kind_of
    closed-sessions stamp s d rows r =
        let out = all_sessions r.older [] in
        all_sessions-append r.older d (r.lines ++ closing stamp ∷ []) []
        ∙ (ap (λ u. put_sessions (and_current u.before u.current) out)
              (changed-loaded (closing stamp) rollover s d rows false r r.now refl refl)
            ∙ put_session-top r.now out)

    abbrev resumed : Session
    resumed = record {
      first_line = again;
      segments = [];
      latest = (some (split (join header)), []);
      clean = false;
      implicit = false;
      skipped = 0;
    }

    top-resumed :
        is_infix (codes "resumed=1") again ≡ true
        → (p : Session) (ps : List Session) → top resumed (p ∷ ps) ≡ joined p resumed
    unfolding continues
    top-resumed i p ps = ap (λ b. if b then joined p resumed else resumed) i

    rest-resumed :
        is_infix (codes "resumed=1") again ≡ true
        → (p : Session) (ps : List Session) → rest resumed (p ∷ ps) ≡ ps
    unfolding continues
    rest-resumed i p ps = ap (λ b. if b then ps else p ∷ ps) i

    rows_of-resumed : (p : Session) → rows_of (joined p resumed) ≡ rows_of p
    unfolding joined
    rows_of-resumed p =
        append-nil (rows_in (p.segments ++ p.latest ∷ [])) ∙ rows_in-append p.segments p.latest

    pub roll-Running :
        (stamp : Text) (s : Writer × Files) (d : ℕ) (rows : List (List Text))
        → d < today
        → kind_of again ≡ boot_start
        → is_infix (codes "resumed=1") again ≡ true
        → Running header line low past s d rows false
        → Running header line low past (roll retention today stamp s) today rows false
    unfolding roll joined new_session
    roll-Running stamp s d rows q k i r =
        let fs = closed stamp s d rows r in
        let below =
          All-append (λ f. f.0 < today) r.older ((d, r.lines ++ closing stamp ∷ []) ∷ [])
            (Below-mono d r.older (omega arith) r.below) (q, tt) in
        let from =
          All-append (λ f. low ≤ f.0) r.older ((d, r.lines ++ closing stamp ∷ []) ∷ []) r.from
            (r.low_day, tt) in
        let low_day : low ≤ today = omega (arith, r.low_day) in
        let t = top r.now (all_sessions r.older []) in
        let ts = rest r.now (all_sessions r.older []) in
        let tops = ap (top resumed) (closed-sessions stamp s d rows r) ∙ top-resumed i t ts in
        record {
          older = fs;
          lines = join header ∷ again ∷ [];
          now = resumed;
          writer = rw r.writer refl;
          files = roll-files stamp s d rows r below from low_day;
          below = below;
          from = from;
          low_day = low_day;
          loaded = opened-loaded again k;
          latest = refl;
          clean = refl;
          first_line = ap (λ u. u.first_line) tops ∙ r.first_line;
          rows_top = ap rows_of tops ∙ (rows_of-resumed t ∙ r.rows_top);
          past_rest =
              ap (rest resumed) (closed-sessions stamp s d rows r)
              ∙ (rest-resumed i t ts ∙ r.past_rest);
        }
