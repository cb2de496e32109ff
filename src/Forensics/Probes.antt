-- ===== src/Forensics/Probes.antt =====
-- ops/node_forensics.py, what one sample asks of the system. The files under /proc and /sys, nvidia-smi and ping are inputs: a text,
-- or `none` where the file cannot be read.
pub mod Power
use mathlib.Core.List.{reverse}
use dmr.Prelude.{
  ℕ, zero, suc, ◌+◌, ◌-◌, ◌*◌, Bool, true, false, ◌&&◌, ◌||◌, not, Option, none, some, List, [],
  ◌∷◌, ◌++◌, ◌==◌, leb, ltb, Text, codes, text_eq, has_prefix, is_space, strip, if◌then◌else◌,
}
use dmr.Prelude.{put}
use dmr.Prelude.{ℤ, pos, negsuc}
use dmr.Forensics.Report.{split}

-- Python's formatting of a number with a fixed count of digits after the point: the number is the first
-- over the second, with the count last.
abbrev pub Format : Type 0
Format = ℤ → ℕ → ℕ → Text

unfoldable pub digits : ℕ → Text → Option ℕ
digits n [] = some n
digits n (c ∷ t) =
    let rest = digits (n * 10 + (c - 48)) t in if leb 48 c && leb c 57 then rest else none

unfoldable pub natural : Text → Option ℕ
unfolding digits
natural [] = none
natural (c ∷ t) = digits 0 (c ∷ t)

unfoldable pub negated : ℕ → ℤ
negated zero = pos 0
negated (suc n) = negsuc n

unfoldable pub signed : (ℕ → ℤ) → Option ℕ → Option ℤ
signed sign none = none
signed sign (some n) = some (sign n)

-- int(raw), for decimal digits with a sign or none; `none` is the ValueError.
unfoldable pub int_of : Text → Option ℤ
unfolding natural signed negated
int_of [] = none
int_of (c ∷ t) =
    if c == 45
    then signed negated (natural t)
    else (if c == 43 then signed pos (natural t) else signed pos (natural (c ∷ t)))

-- text.split(), with the word so far reversed.
unfoldable pub words_from : Text → Text → List Text
unfolding is_space
words_from [] [] = []
words_from (c ∷ w) [] = reverse (c ∷ w) ∷ []
words_from [] (d ∷ t) = if is_space d then words_from [] t else words_from (d ∷ []) t
words_from (c ∷ w) (d ∷ t) =
    if is_space d then reverse (c ∷ w) ∷ words_from [] t else words_from (d ∷ c ∷ w) t

abbrev pub words : Text → List Text
words t = words_from [] t

-- read_int, whose scale is left to the formatting.
unfoldable pub read_int : Option Text → Option ℤ
unfolding int_of strip
read_int none = none
read_int (some t) = int_of (strip t)

abbrev pub Counters : Type 0
Counters = List (Text × ℤ)

unfoldable pub put_if : Text → Option ℤ → Counters → Counters
unfolding put
put_if k none out = out
put_if k (some v) out = put k v out

-- A line of an aer file counts if it is a name and a number.
unfoldable pub aer_line : List Text → Counters → Counters
unfolding put_if int_of
aer_line (k ∷ v ∷ []) out = put_if k (int_of v) out
aer_line _ out = out

-- read_aer, for the lines of the file.
unfoldable pub read_aer : List Text → Counters → Counters
unfolding aer_line words_from
read_aer [] out = out
read_aer (l ∷ ls) out = read_aer ls (aer_line (words l) out)

-- What nvidia-smi comes to.
pub data GpuQuery : Type 0 where
  timeout os_error exit_failed : GpuQuery
  stdout : Text → GpuQuery

unfoldable pub repeat : ℕ → Text → List Text
repeat zero t = []
repeat (suc n) t = t ∷ repeat n t

-- text.splitlines()[0]
unfoldable pub first_line : Text → Text
first_line [] = []
first_line (c ∷ t) =
    if (leb 10 c && leb c 13) || (leb 28 c && leb c 30) then [] else c ∷ first_line t

unfoldable pub cell : Text → Text
unfolding text_eq
cell v = if text_eq v (codes "[N/A]") || text_eq v (codes "[Not Supported]") then [] else v

unfoldable pub cells : List Text → List Text
unfolding cell strip
cells [] = []
cells (v ∷ vs) = cell (strip v) ∷ cells vs

-- `while len(vals) < n: vals.append("")`, and vals[:n]
unfoldable pub padded : ℕ → List Text → List Text
padded zero vs = []
padded (suc n) [] = [] ∷ padded n []
padded (suc n) (v ∷ vs) = v ∷ padded n vs

unfoldable pub gpu_fields : Text → List Text
unfolding repeat padded cells first_line split
gpu_fields [] = repeat 5 []
gpu_fields (c ∷ t) = padded 5 (cells (split (first_line (c ∷ t))))

-- gpu_sample
unfoldable pub gpu_sample : GpuQuery → List Text
unfolding repeat gpu_fields strip
gpu_sample timeout = repeat 5 (codes "TIMEOUT")
gpu_sample os_error = repeat 5 []
gpu_sample exit_failed = repeat 5 (codes "ERR")
gpu_sample (stdout t) = gpu_fields (strip t)

-- deep_idle_disabled, for the two files.
unfoldable pub flags : List (Option Text) → List Text
unfolding strip
flags [] = []
flags (none ∷ fs) = flags fs
flags (some t ∷ fs) = strip t ∷ flags fs

unfoldable pub all_one : List Text → Bool
unfolding text_eq
all_one [] = true
all_one (f ∷ fs) = text_eq f (codes "1") && all_one fs

unfoldable pub idle_flag : List Text → Text
unfolding all_one
idle_flag [] = []
idle_flag (f ∷ fs) = if all_one (f ∷ fs) then codes "1" else codes "0"

unfoldable pub deep_idle_disabled : List (Option Text) → Text
unfolding idle_flag flags
deep_idle_disabled fs = idle_flag (flags fs)

-- What ping comes to.
pub data Ping : Type 0 where
  no_ping lost : Ping
  answered : Text → Ping

unfoldable pub drop : ℕ → Text → Text
drop zero t = t
drop (suc n) [] = []
drop (suc n) (c ∷ t) = drop n t

unfoldable pub time_token : List Text → Text
unfolding has_prefix drop
time_token [] = []
time_token (w ∷ ws) = if has_prefix (codes "time=") w then drop 5 w else time_token ws

-- ping_peer
unfoldable pub ping_peer : Ping → Text
unfolding time_token words_from
ping_peer no_ping = []
ping_peer lost = codes "LOST"
ping_peer (answered out) = time_token (words out)
