-- ===== src/Forensics/Rows.antt =====
-- ops/node_forensics.py, the header and the rows that main writes, from what the probes of a sample answer. The sensors, the devices
-- and the idle states are found at the start; their names and the clock's texts are inputs.
pub mod Fits
mod Tests
use mathlib.Core.List.{map}
use dmr.Prelude.{
  ℕ, zero, suc, ◌+◌, ◌-◌, ◌*◌, Bool, true, false, ◌&&◌, not, Option, none, some, List, [], ◌∷◌,
  ◌++◌, ◌==◌, leb, ltb, Text, codes, has_prefix, lower, if◌then◌else◌,
}
use dmr.Prelude.{get}
use dmr.Prelude.{ℤ, pos, negsuc}
use dmr.Forensics.Probes.{
  negated, Format, int_of, words_from, words, read_int, Counters, read_aer, GpuQuery, gpu_sample,
  deep_idle_disabled, Ping, ping_peer, first_line,
}
use dmr.Forensics.Probes.Power.{Power, take}

-- CpuMeter.prev: idle and total.
abbrev pub CpuTimes : Type 0
CpuTimes = ℕ × ℕ

unfoldable pub naturals : List Text → Option (List ℕ)
unfolding dmr.Forensics.Probes.natural
naturals [] = some []
naturals (w ∷ ws) = elim (dmr.Forensics.Probes.natural w) [
  | none ↦ none
  | some n ↦ elim (naturals ws) [ none ↦ none | some ns ↦ some (n ∷ ns) ]
]

unfoldable pub sum : List ℕ → ℕ
sum [] = 0
sum (n ∷ ns) = n + sum ns

-- vals[3] + (vals[4] if len(vals) > 4 else 0); `none` is the IndexError.
unfoldable pub idle_of : List ℕ → Option ℕ
idle_of (a ∷ b ∷ c ∷ d ∷ []) = some d
idle_of (a ∷ b ∷ c ∷ d ∷ e ∷ ns) = some (d + e)
idle_of _ = none

-- a - b
unfoldable pub minus : ℕ → ℕ → ℤ
unfolding negated
minus a b = if ltb a b then negated (b - a) else pos (a - b)

-- 100.0 * (1.0 - d_idle / d_total) with one digit, from (total - prev_total) - (idle - prev_idle).
unfoldable pub percent : Format → CpuTimes → CpuTimes → Text
unfolding minus
percent f (idle0, total0) (idle, total) =
    if leb total total0
    then []
    else f (minus (100 * (total + idle0)) (100 * (total0 + idle))) (total - total0) 1

unfoldable pub usage : Format → Option CpuTimes → CpuTimes → Text
unfolding percent
usage f none now = []
usage f (some prev) now = percent f prev now

-- What CpuMeter.read does with vals, if they are numbers; `none` where it raises.
unfoldable pub measure :
    Format → Option (List ℕ) → Option CpuTimes → Option (Text × Option CpuTimes)
unfolding usage idle_of sum
measure f none prev = some ([], prev)
measure f (some vals) prev = elim (idle_of vals) [
  | none ↦ none
  | some idle ↦ some (usage f prev (idle, sum vals), some (idle, sum vals))
]

-- parts[1:]
unfoldable pub tail_of : List Text → List Text
tail_of [] = []
tail_of (w ∷ ws) = ws

-- CpuMeter.read for the text of /proc/stat, whose counters have no sign.
unfoldable pub cpu_read : Format → Option Text → Option CpuTimes → Option (Text × Option CpuTimes)
unfolding measure naturals tail_of words_from first_line
cpu_read f none prev = some ([], prev)
cpu_read f (some []) prev = some ([], prev)
cpu_read f (some (c ∷ t)) prev = measure f (naturals (tail_of (words (first_line (c ∷ t))))) prev

-- total and avail of mem_used_pct, or how its loop ends: `unread` is an OSError or a ValueError, `raised` an IndexError.
pub data MemInfo : Type 0 where
  unread raised : MemInfo
  found : Option ℤ → Option ℤ → MemInfo

-- int(line.split()[1]), and what is done with it.
unfoldable pub second_word : List Text → (ℤ → MemInfo) → MemInfo
unfolding int_of
second_word (a ∷ b ∷ ws) go = elim (int_of b) [ none ↦ unread | some n ↦ go n ]
second_word _ go = raised

-- The loop over the lines of /proc/meminfo.
unfoldable pub mem_lines : List Text → Option ℤ → Option ℤ → MemInfo
unfolding second_word words_from has_prefix
mem_lines ls (some t) (some v) = found (some t) (some v)
mem_lines [] total avail = found total avail
mem_lines (l ∷ ls) total avail =
    if has_prefix (codes "MemTotal:") l
    then second_word (words l) (λ n. mem_lines ls (some n) avail)
    else (if has_prefix (codes "MemAvailable:") l
        then second_word (words l) (λ n. mem_lines ls total (some n))
        else mem_lines ls total avail)

-- 100.0 * (total - avail) / total with one digit.
unfoldable pub used : Format → ℤ → ℤ → Text
unfolding minus
used f (pos t) (pos v) = f (minus (100 * t) (100 * v)) t 1
used f (pos t) (negsuc v) = f (pos (100 * (t + suc v))) t 1
used f (negsuc t) (pos v) = f (pos (100 * (suc t + v))) (suc t) 1
used f (negsuc t) (negsuc v) = f (minus (100 * t) (100 * v)) (suc t) 1

-- What is formatted at the end of mem_used_pct; `none` where it raises.
unfoldable pub mem_text : Format → MemInfo → Option Text
unfolding used
mem_text f unread = some []
mem_text f raised = none
mem_text f (found none avail) = some []
mem_text f (found (some (pos zero)) avail) = some []
mem_text f (found (some t) none) = none
mem_text f (found (some t) (some v)) = some (used f t v)

-- mem_used_pct, for the lines of the file, if it can be read.
unfoldable pub mem_used_pct : Format → Option (List Text) → Option Text
unfolding mem_lines mem_text
mem_used_pct f none = some []
mem_used_pct f (some ls) = mem_text f (mem_lines ls none none)

-- raw.split()[0], and what is answered for an IndexError.
unfoldable pub first_word : List Text → Text
first_word [] = []
first_word (w ∷ ws) = w

-- load1, for the text of the file.
unfoldable pub load1 : Option Text → Text
unfolding first_word words_from
load1 none = []
load1 (some t) = first_word (words t)

-- fmt(read_int(path, 1000.0))
unfoldable pub thousandths : Format → Option ℤ → Text
thousandths f none = []
thousandths f (some n) = f n 1000 1

unfoldable pub temperatures : Format → List (Option Text) → List Text
unfolding thousandths read_int
temperatures f [] = []
temperatures f (t ∷ ts) = thousandths f (read_int t) ∷ temperatures f ts

-- str(d.get(key, ""))
unfoldable pub str_of : Format → Option ℤ → Text
str_of f none = []
str_of f (some n) = f n 1 0

unfoldable pub looked_up : Format → Counters → List Text → List Text
unfolding str_of get
looked_up f d [] = []
looked_up f d (k ∷ ks) = str_of f (get k d) ∷ looked_up f d ks

-- What is found at the start: the columns of the sensors, and the keys of read_cpuidle in order.
pub record Columns : Type 0 where
  pub zones : List Text
  pub hwmon : List Text
  pub idle_keys : List Text

-- WATCHED_AER_FIELDS
abbrev pub watched_fields : List Text
watched_fields =
    codes "RxErr" ∷ codes "BadTLP" ∷ codes "BadDLLP" ∷ codes "Timeout" ∷ codes "TOTAL_ERR_COR" ∷ []

abbrev pub gpu_columns : List Text
gpu_columns =
    codes "gpu_c"
    ∷ codes "gpu_w"
    ∷ codes "gpu_util"
    ∷ codes "gpu_sm_mhz"
    ∷ codes "gpu_throttle"
    ∷ codes "gpu_w_min"
    ∷ codes "gpu_w_max"
    ∷ []

-- The columns after those of the idle states.
unfoldable pub last_columns : List Text
unfolding lower
last_columns =
    codes "deep_idle_off"
      ∷ codes "aer_cor_all"
      ∷ codes "aer_nonfatal_all"
      ∷ codes "aer_fatal_all"
      ∷ map (λ k. codes "rp_" ++ lower k) watched_fields
    ++ (codes "peer_link" ∷ codes "peer_ping_ms" ∷ [])

abbrev pub entries : Text → Text
entries k = k ++ codes "_entries"

-- The header of main.
unfoldable pub header_of : Columns → List Text
unfolding last_columns
header_of c =
    codes "ts"
      ∷ codes "epoch"
      ∷ codes "uptime_s"
      ∷ codes "load1"
      ∷ codes "cpu_pct"
      ∷ codes "mem_used_pct"
      ∷ c.zones
    ++ (c.hwmon ++ (gpu_columns ++ (map entries c.idle_keys ++ last_columns)))

-- The lines of the three aer files of a device.
pub record AerDevice : Type 0 where
  pub correctable : List Text
  pub nonfatal : List Text
  pub fatal : List Text

unfoldable pub plus : ℤ → ℤ → ℤ
unfolding minus
plus (pos a) (pos b) = pos (a + b)
plus (negsuc a) (negsuc b) = negsuc (suc (a + b))
plus (pos a) (negsuc b) = minus a (suc b)
plus (negsuc a) (pos b) = minus b (suc a)

unfoldable pub or_zero : Option ℤ → ℤ
or_zero none = pos 0
or_zero (some n) = n

-- cor: the sum of TOTAL_ERR_COR.
unfoldable pub correctable : List AerDevice → ℤ
unfolding plus or_zero get read_aer
correctable [] = pos 0
correctable (d ∷ ds) =
    plus (or_zero (get (codes "TOTAL_ERR_COR") (read_aer d.correctable []))) (correctable ds)

-- sum(v for k, v in d.items() if k.startswith("TOTAL_ERR"))
unfoldable pub totals_in : Counters → ℤ
unfolding plus has_prefix
totals_in [] = pos 0
totals_in ((k, v) ∷ kvs) =
    if has_prefix (codes "TOTAL_ERR") k then plus v (totals_in kvs) else totals_in kvs

-- nonfatal and fatal, for the file of a device.
unfoldable pub total_of : (AerDevice → List Text) → List AerDevice → ℤ
unfolding plus totals_in read_aer
total_of file [] = pos 0
total_of file (d ∷ ds) = plus (totals_in (read_aer (file d) [])) (total_of file ds)

-- What the probes of a sample answer; cpu_pct is of cpu_read and memory of mem_used_pct.
pub record Answers : Type 0 where
  pub stamp : Text
  pub epoch : Text
  pub uptime : Text
  pub loadavg : Option Text
  pub cpu_pct : Text
  pub memory : Text
  pub gpu : GpuQuery
  pub power : Text × Text
  pub idle : Counters
  pub idle_disabled : List (Option Text)
  pub devices : List AerDevice
  pub watched : List Text
  pub carrier : Option Text
  pub ping : Ping

unfoldable pub or_empty : Option Text → Text
or_empty none = []
or_empty (some t) = t

-- The fields after those of the idle states.
unfoldable pub last_fields : Format → Answers → List Text
unfolding looked_up deep_idle_disabled read_aer or_empty ping_peer correctable total_of
last_fields f a =
    deep_idle_disabled a.idle_disabled
      ∷ f (correctable a.devices) 1 0
      ∷ f (total_of (λ d. d.nonfatal) a.devices) 1 0
      ∷ f (total_of (λ d. d.fatal) a.devices) 1 0
      ∷ looked_up f (read_aer a.watched []) watched_fields
    ++ (or_empty a.carrier ∷ ping_peer a.ping ∷ [])

-- The row of main, for the readings of the sensors.
unfoldable pub row_of :
    Format → Columns → List (Option Text) → List (Option Text) → Answers → List Text
unfolding load1 temperatures gpu_sample looked_up last_fields
row_of f c zones hwmon a =
    a.stamp ∷ a.epoch ∷ a.uptime ∷ load1 a.loadavg ∷ a.cpu_pct ∷ a.memory ∷ temperatures f zones
    ++ (temperatures f hwmon
        ++ (gpu_sample a.gpu
            ++ (a.power.0 ∷ a.power.1 ∷ looked_up f a.idle c.idle_keys ++ last_fields f a)))
