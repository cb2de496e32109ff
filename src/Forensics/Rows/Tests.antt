-- ===== src/Forensics/Rows/Tests.antt =====
-- A row of a node with two sensors and one idle state.
use dmr.Prelude.{
  ◌≡◌, refl, true, Option, none, some, List, [], ◌∷◌, Text, codes, strip, lower, has_prefix,
  is_space,
}
use dmr.Prelude.{pos}
use dmr.Forensics.{join}
use dmr.Forensics.Report.{split, fits}
use dmr.Prelude.{put, get}
use dmr.Forensics.Probes.{
  Format, stdout, lost, digits, natural, signed, int_of, words_from, read_int, put_if, aer_line,
  read_aer, repeat, first_line, cell, cells, padded, gpu_fields, gpu_sample, flags, all_one,
  idle_flag, deep_idle_disabled, ping_peer,
}
use dmr.Forensics.Probes.Power.{Reports, observe_all, take, no_power, take-Reports}
use dmr.Forensics.Rows.{
  Columns, Answers, row_of, header_of, last_columns, minus, load1, first_word, mem_used_pct,
  mem_lines, second_word, mem_text, used, cpu_read, measure, tail_of, naturals, usage, idle_of, sum,
  thousandths, temperatures, str_of, looked_up, last_fields, or_empty, or_zero, plus, correctable,
  totals_in, total_of,
}
use dmr.Forensics.Rows.Fits.{no_commas, has_no_comma, row_of-fits}

abbrev one_digit : Format
one_digit n d k = codes "7"

abbrev node : Columns
node = record {
  zones = codes "tz0_c" ∷ [];
  hwmon = codes "nvme_c" ∷ [];
  idle_keys = codes "state0" ∷ [];
}

abbrev answers : Answers
answers = record {
  stamp = codes "2025-01-01";
  epoch = codes "1";
  uptime = codes "10";
  loadavg = some (codes "0.5 0.4");
  cpu_pct = codes "3.0";
  memory = codes "60.0";
  gpu = stdout (codes "41, 30.5, [N/A]");
  power = (codes "29.00", codes "33.00");
  idle = (codes "state0", pos 12) ∷ [];
  idle_disabled = some (codes "1") ∷ none ∷ [];
  devices = [];
  watched = codes "RxErr 2" ∷ [];
  carrier = some (codes "1");
  ping = lost;
}

abbrev readings : List (Option Text)
readings = some (codes "41000") ∷ []

row_of-fits_example :
    (split (join (row_of one_digit node readings readings answers))
      ≡ row_of one_digit node readings readings answers)
    × (fits
          (split (join (row_of one_digit node readings readings answers)))
          (some (split (join (header_of node))))
        ≡ true)
unfolding no_commas has_no_comma row_of header_of last_columns temperatures thousandths read_int
    int_of digits natural signed load1 first_word minus gpu_sample repeat first_line cell cells
    padded gpu_fields flags all_one idle_flag deep_idle_disabled ping_peer looked_up str_of get put
    put_if aer_line words_from read_aer last_fields or_empty or_zero plus correctable totals_in
    total_of strip lower split has_prefix
row_of-fits_example = row_of-fits one_digit node readings readings answers refl refl refl refl

take-Reports_example :
    Reports
      (3 ∷ 1 ∷ 2 ∷ [])
      (λ v. v ∷ [])
      (take (λ v. v ∷ []) (observe_all (3 ∷ 1 ∷ 2 ∷ []) no_power)).0
    × ((take (λ v. v ∷ []) (observe_all (3 ∷ 1 ∷ 2 ∷ []) no_power)).1 ≡ no_power)
take-Reports_example = take-Reports (λ v. v ∷ []) (3 ∷ 1 ∷ 2 ∷ [])

mem_used_pct-cases :
    (mem_used_pct one_digit
        (some (codes "MemTotal: 100 kB" ∷ codes "MemAvailable: 40 kB" ∷ codes "MemTotal:" ∷ []))
      ≡ some (codes "7"))
    × ((mem_used_pct one_digit (some (codes "MemTotal:" ∷ [])) ≡ none)
        × (mem_used_pct one_digit (some (codes "MemAvailable: 40 kB" ∷ [])) ≡ some []))
unfolding mem_used_pct mem_lines second_word mem_text used minus has_prefix words_from is_space
    int_of signed natural digits
mem_used_pct-cases = (refl, (refl, refl))

cpu_read-first :
    cpu_read one_digit (some (codes "cpu  9 0 1 90 2")) none ≡ some ([], some (92, 102))
unfolding cpu_read measure tail_of naturals natural digits first_line words_from is_space usage
    idle_of sum
cpu_read-first = refl
