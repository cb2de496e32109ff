-- ===== src/Forensics/Live.antt =====
-- ops/crash_report.py: which sessions died. The boot id and the processes of the system are inputs.
pub mod Started
mod Tests
use dmr.Prelude.{
  ℕ, Bool, true, false, ◌&&◌, not, Option, none, some, List, [], ◌∷◌, ◌++◌, ◌==◌, leb, Text, codes,
  text_eq, if◌then◌else◌,
}
use dmr.Prelude.{put, get, partition}
use dmr.Forensics.Probes.{words_from, words}
use dmr.Forensics.Report.{Session}

-- `if "=" in token: k, v = token.split("=", 1); out[k] = v`
unfoldable pub assign_if : Option (Text × Text) → List (Text × Text) → List (Text × Text)
unfolding put
assign_if none out = out
assign_if (some (k, v)) out = put k v out

-- The loop over the tokens.
unfoldable pub parse_tokens : List Text → List (Text × Text) → List (Text × Text)
unfolding partition assign_if
parse_tokens [] out = out
parse_tokens (w ∷ ws) out = parse_tokens ws (assign_if (partition b'=' w) out)

unfoldable pub after_first : List Text → List (Text × Text)
unfolding parse_tokens
after_first [] = []
after_first (w ∷ ws) = parse_tokens ws []

-- parse_start
unfoldable pub parse_start : Text → List (Text × Text)
unfolding after_first words_from
parse_start l = after_first (words l)

-- pid.isdigit(), for a text that is not empty.
unfoldable pub all_digits : Text → Bool
all_digits [] = true
all_digits (c ∷ t) = if leb 48 c && leb c 57 then all_digits t else false

-- Is there a directory for the pid?
unfoldable pub is_running : (Text → Bool) → Option Text → Bool
unfolding all_digits
is_running exists none = false
is_running exists (some []) = false
is_running exists (some (c ∷ t)) = if all_digits (c ∷ t) then exists (c ∷ t) else false

unfoldable pub is_same_boot : Text → Option Text → Bool
unfolding text_eq
is_same_boot current none = false
is_same_boot current (some boot) = text_eq boot current

-- session_is_live, for the pairs of its first line.
unfoldable pub live_by : Text → (Text → Bool) → List (Text × Text) → Bool
unfolding is_same_boot is_running get
live_by current exists meta =
    if is_same_boot current (get (codes "boot_id") meta)
    then is_running exists (get (codes "pid") meta)
    else false

-- session_is_live, for the boot id of the system, which is empty if it cannot be read.
unfoldable pub session_is_live : Text → (Text → Bool) → Text → Bool
unfolding live_by parse_start
session_is_live current exists start = live_by current exists (parse_start start)

-- The sessions that died.
unfoldable pub dirty : Text → (Text → Bool) → List Session → List Session
unfolding session_is_live
dirty current exists [] = []
dirty current exists (s ∷ ss) =
    if not s.clean && not (session_is_live current exists s.first_line)
    then s ∷ dirty current exists ss
    else dirty current exists ss

-- The line that main of ops/node_forensics.py gives to start_session.
unfoldable pub start_line : Text → Text → Text → Text → Text
start_line ts boot interval pid =
    codes "#BOOT_START ts="
    ++ (ts
        ++ (codes " boot_id="
            ++ (boot ++ (codes " interval=" ++ (interval ++ (codes "s pid=" ++ pid))))))
