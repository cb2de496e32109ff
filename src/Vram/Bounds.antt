-- ===== src/Vram/Bounds.antt =====
-- gateway/vram_monitor.py: a report's free memory is within its total.
use dmr.Prelude.{
  ℕ, suc, ◌+◌, ◌-◌, ◌≤◌, ◌≡◌, refl, Bool, true, false, Option, none, some, List, [], ◌∷◌, ltb,
  if◌then◌else◌, arith, All,
}
use Prim.Native.Nat.{◌/◌}
use dmr.Vram.{
  GpuInfo, VramReport, MemoryReading, memory_info, processes, no_processes, Device, capped,
  nvml_memory, memory_of, gpu_of, gpus_of, sum_of, report_of, mock_gpu, mock_report, query_gpus,
  has_enough_vram,
}

-- What is read of a device is in order: no more memory is free than there is.
abbrev pub IsReadSound : MemoryReading → Type 0
IsReadSound (memory_info t u f) = f ≤ t
IsReadSound _ = Unit {0}

abbrev pub IsHostSound : Option (ℕ × ℕ) → Type 0
IsHostSound none = Unit {0}
IsHostSound (some (t, f)) = f ≤ t

abbrev pub IsSound : Option Device → Type 0
IsSound none = Unit {0}
IsSound (some d) = IsHostSound d.host × IsReadSound d.memory

abbrev pub IsWithin : GpuInfo → Type 0
IsWithin g = g.vram_free_mb ≤ g.vram_total_mb

capped-free : (cap t u f : ℕ) → f ≤ t → (capped cap t u f).2 ≤ (capped cap t u f).0
unfolding capped
capped-free cap t u f h = pick (ltb cap t)
  where
    pick :
        (b : Bool) → (let r : ℕ × ℕ × ℕ = if b then (cap, u, cap - u) else (t, u, f) in r.2 ≤ r.0)
    pick true = omega arith
    pick false = h

memory_of-free :
    (cap : ℕ) (h : Option (ℕ × ℕ)) (m : MemoryReading)
    → IsHostSound h
    → IsReadSound m
    → (memory_of cap h m).2 ≤ (memory_of cap h m).0
unfolding memory_of nvml_memory
memory_of-free cap (some (t, f)) m h k = h
memory_of-free cap none (memory_info t u f) h k =
    capped-free cap (t / 1048576) (u / 1048576) (f / 1048576) (omega arith)
memory_of-free cap none (processes ps) h k = omega arith
memory_of-free cap none no_processes h k = omega arith

gpus_of-IsWithin :
    (cap i : ℕ) (ds : List (Option Device)) → All IsSound ds → All IsWithin (gpus_of cap i ds)
unfolding gpus_of gpu_of
gpus_of-IsWithin cap i [] h = tt
gpus_of-IsWithin cap i (none ∷ ds) (k, h) = gpus_of-IsWithin cap (suc i) ds h
gpus_of-IsWithin cap i (some d ∷ ds) (k, h) =
    (memory_of-free cap d.host d.memory k.0 k.1, gpus_of-IsWithin cap (suc i) ds h)

sum_of-le :
    (gs : List GpuInfo)
    → All IsWithin gs
    → sum_of (λ g. g.vram_free_mb) gs ≤ sum_of (λ g. g.vram_total_mb) gs
unfolding sum_of
sum_of-le [] h = omega arith
sum_of-le (g ∷ gs) (k, h) = omega (arith, sum_of-le gs h)

abbrev pub IsWithinReport : VramReport → Type 0
IsWithinReport r = All IsWithin r.gpus × (r.total_free_mb ≤ r.total_vram_mb)

query_gpus-IsWithinReport :
    (cap : ℕ) (ok : Bool) (ds : Option (List (Option Device)))
    → ((l : List (Option Device)) → ds ≡ some l → All IsSound l)
    → IsWithinReport (query_gpus cap ok ds)
unfolding query_gpus report_of mock_report mock_gpu
query_gpus-IsWithinReport cap false ds h = ((omega arith, (omega arith, tt)), omega arith)
query_gpus-IsWithinReport cap true none h = (tt, omega arith)
query_gpus-IsWithinReport cap true (some ds) h =
    let within = gpus_of-IsWithin cap 0 ds (h ds refl) in
    (within, sum_of-le (gpus_of cap 0 ds) within)

-- Where no reading has more memory free than there is, each GPU of a report and the report as a whole have no more free than in
-- total, and a model that has enough memory by the report fits, with the margin, in the total.
pub query_gpus-bounded :
    (cap : ℕ) (ok : Bool) (ds : Option (List (Option Device))) (margin required : ℕ)
    → ((l : List (Option Device)) → ds ≡ some l → All IsSound l)
    → IsWithinReport (query_gpus cap ok ds)
      × (has_enough_vram margin required (query_gpus cap ok ds) ≡ true
          → required + margin ≤ (query_gpus cap ok ds).total_vram_mb)
unfolding has_enough_vram
query_gpus-bounded cap ok ds margin required h =
    let within = query_gpus-IsWithinReport cap ok ds h in
    let total = within.1 in (within, λ e. ground arith)
