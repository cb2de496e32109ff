-- ===== src/Vram/Tests.antt =====
-- A node with unified memory, and one whose memory NVML reports.
use dmr.Prelude.{
  ◌+◌, ◌≤◌, ◌≡◌, refl, sym, true, Option, none, some, List, [], ◌∷◌, codes, All, arith,
}
use dmr.Vram.{memory_info, no_processes, Device, query_gpus, has_enough_vram, read_lines}
use dmr.Vram.Bounds.{IsSound, IsWithinReport, query_gpus-bounded}

abbrev unified : Device
unified = record {
  name = "GB10";
  host = some (122880, 100000);
  memory = no_processes;
  temperature = some 50;
  utilization = none;
}

abbrev discrete : Device
discrete = record {
  name = "B200";
  host = none;
  memory = memory_info 137438953472 1073741824 136365211648;
  temperature = none;
  utilization = some 3;
}

abbrev both : List (Option Device)
both = some unified ∷ none ∷ some discrete ∷ []

read_lines-meminfo :
    read_lines
      (codes "MemTotal: 2048 kB"
        ∷ codes "MemFree: 1 kB"
        ∷ codes "MemAvailable: 1024 kB"
        ∷ codes "x"
        ∷ [])
      none
      none
    ≡ some (2, 1)
unfolding read_lines
read_lines-meminfo = refl

query_gpus-both : (query_gpus 131072 true (some both)).total_free_mb ≡ 230048
unfolding query_gpus
query_gpus-both = refl

both-IsSound : (l : List (Option Device)) → some both ≡ some l → All IsSound l
both-IsSound l e =
    let q : both ≡ l = cc in rw (sym q) ((omega arith, tt), (tt, ((tt, omega arith), tt)))

query_gpus-bounded_example :
    IsWithinReport (query_gpus 131072 true (some both))
    × (has_enough_vram 4096 90000 (query_gpus 131072 true (some both)) ≡ true
        → 90000 + 4096 ≤ (query_gpus 131072 true (some both)).total_vram_mb)
query_gpus-bounded_example = query_gpus-bounded 131072 true (some both) 4096 90000 both-IsSound
