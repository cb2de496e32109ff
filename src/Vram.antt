-- ===== src/Vram.antt =====
-- gateway/vram_monitor.py: a report from what NVML and the host's meminfo say.
-- Memory sizes are natural numbers; a number in meminfo is a word of decimal digits.
pub mod Bounds
mod Tests
use dmr.Prelude.{
  ℕ, zero, suc, ◌+◌, ◌-◌, ◌*◌, String, Bool, true, false, ◌&&◌, Option, none, some, List, [], ◌∷◌,
  ◌++◌, ◌==◌, leb, ltb, Text, codes, has_prefix, is_space, lstrip, if◌then◌else◌,
}
use Prim.Native.Nat.{◌/◌}

-- schemas.GPUInfo
pub record GpuInfo : Type 0 where
  pub index : ℕ
  pub name : String
  pub vram_total_mb : ℕ
  pub vram_used_mb : ℕ
  pub vram_free_mb : ℕ
  pub temperature_c : ℕ
  pub utilization_pct : ℕ

-- schemas.VRAMReport
pub record VramReport : Type 0 where
  pub gpus : List GpuInfo
  pub total_vram_mb : ℕ
  pub total_used_mb : ℕ
  pub total_free_mb : ℕ
  pub healthy : Bool

-- nvmlDeviceGetMemoryInfo in bytes, or the memory of the processes where NVML cannot tell.
pub data MemoryReading : Type 0 where
  memory_info : ℕ → ℕ → ℕ → MemoryReading
  processes : List ℕ → MemoryReading
  no_processes : MemoryReading

-- What is read of a device; `none` where NVML raises an error.
pub record Device : Type 0 where
  pub name : String
  pub host : Option (ℕ × ℕ)
  pub memory : MemoryReading
  pub temperature : Option ℕ
  pub utilization : Option ℕ

unfoldable pub or_zero : Option ℕ → ℕ
or_zero none = 0
or_zero (some n) = n

unfoldable pub sum_mib : List ℕ → ℕ
sum_mib [] = 0
sum_mib (p ∷ ps) = p / 1048576 + sum_mib ps

-- _sum_process_memory_nvml
unfoldable pub sum_process_memory : MemoryReading → ℕ
unfolding sum_mib
sum_process_memory (memory_info t u f) = 0
sum_process_memory (processes ps) = sum_mib ps
sum_process_memory no_processes = 0

-- Total, used and free of a device, for SYSTEM_RAM_GB * 1024.
unfoldable pub capped : ℕ → ℕ → ℕ → ℕ → ℕ × ℕ × ℕ
capped cap total used free = if ltb cap total then (cap, used, cap - used) else (total, used, free)

unfoldable pub nvml_memory : ℕ → MemoryReading → ℕ × ℕ × ℕ
unfolding capped sum_process_memory
nvml_memory cap (memory_info t u f) = capped cap (t / 1048576) (u / 1048576) (f / 1048576)
nvml_memory cap m = (cap, sum_process_memory m, cap - sum_process_memory m)

unfoldable pub memory_of : ℕ → Option (ℕ × ℕ) → MemoryReading → ℕ × ℕ × ℕ
unfolding nvml_memory
memory_of cap (some (total, free)) m = (total, total - free, free)
memory_of cap none m = nvml_memory cap m

unfoldable pub gpu_of : ℕ → ℕ → Device → GpuInfo
unfolding memory_of or_zero
gpu_of cap idx d =
    let (total, used, free) = memory_of cap d.host d.memory in
    record {
      index = idx;
      name = d.name;
      vram_total_mb = total;
      vram_used_mb = used;
      vram_free_mb = free;
      temperature_c = or_zero d.temperature;
      utilization_pct = or_zero d.utilization;
    }

-- The loop over the devices; a device that fails is left out.
unfoldable pub gpus_of : ℕ → ℕ → List (Option Device) → List GpuInfo
unfolding gpu_of
gpus_of cap idx [] = []
gpus_of cap idx (none ∷ ds) = gpus_of cap (suc idx) ds
gpus_of cap idx (some d ∷ ds) = gpu_of cap idx d ∷ gpus_of cap (suc idx) ds

unfoldable pub sum_of : (GpuInfo → ℕ) → List GpuInfo → ℕ
sum_of f [] = 0
sum_of f (g ∷ gs) = f g + sum_of f gs

unfoldable pub report_of : List GpuInfo → VramReport
unfolding sum_of
report_of gs = record {
  gpus = gs;
  total_vram_mb = sum_of (λ g. g.vram_total_mb) gs;
  total_used_mb = sum_of (λ g. g.vram_used_mb) gs;
  total_free_mb = sum_of (λ g. g.vram_free_mb) gs;
  healthy = true;
}

unfoldable pub mock_gpu : ℕ → String → GpuInfo
mock_gpu i n = record {
  index = i;
  name = n;
  vram_total_mb = 131072;
  vram_used_mb = 0;
  vram_free_mb = 131072;
  temperature_c = 35;
  utilization_pct = 0;
}

-- _mock_report
unfoldable pub mock_report : VramReport
unfolding mock_gpu
mock_report = record {
  gpus =
      mock_gpu 0 "NVIDIA Blackwell B200 (simulated) #0"
      ∷ mock_gpu 1 "NVIDIA Blackwell B200 (simulated) #1"
      ∷ [];
  total_vram_mb = 262144;
  total_used_mb = 0;
  total_free_mb = 262144;
  healthy = true;
}

-- _query_gpus_sync, for _nvml_ok and the devices, if they can be counted.
unfoldable pub query_gpus : ℕ → Bool → Option (List (Option Device)) → VramReport
unfolding report_of gpus_of mock_report
query_gpus cap false ds = mock_report
query_gpus cap true none = record {
  gpus = [];
  total_vram_mb = 0;
  total_used_mb = 0;
  total_free_mb = 0;
  healthy = false;
}
query_gpus cap true (some ds) = report_of (gpus_of cap 0 ds)

-- has_enough_vram, for VRAM_SAFETY_MARGIN_MB.
unfoldable pub has_enough_vram : ℕ → ℕ → VramReport → Bool
has_enough_vram margin required r = leb (required + margin) r.total_free_mb

unfoldable pub digits : ℕ → Text → Option ℕ
digits n [] = some n
digits n (c ∷ t) =
    let rest = digits (n * 10 + (c - 48)) t in if leb 48 c && leb c 57 then rest else none

unfoldable pub int_of : Text → Option ℕ
unfolding digits
int_of [] = none
int_of (c ∷ t) = digits 0 (c ∷ t)

unfoldable pub cut_word : Text → Text × Text
unfolding is_space
cut_word [] = ([], [])
cut_word (c ∷ t) = if is_space c then ([], c ∷ t) else ((c ∷ (cut_word t).0), (cut_word t).1)

-- int(line.split()[1]); `none` if it raises.
unfoldable pub second_int : Text → Option ℕ
unfolding cut_word lstrip int_of
second_int line = int_of (cut_word (lstrip (cut_word (lstrip line)).1)).0

unfoldable pub found : Option ℕ → Option ℕ → Option (ℕ × ℕ)
found (some t) (some a) = some (t / 1024, a / 1024)
found _ _ = none

-- The loop of _read_host_memory, with the values found so far; the numbers are in kB.
unfoldable pub read_lines : List Text → Option ℕ → Option ℕ → Option (ℕ × ℕ)
unfolding found has_prefix second_int
read_lines [] total avail = found total avail
read_lines (l ∷ ls) (some t) (some a) = found (some t) (some a)
read_lines (l ∷ ls) total avail =
    let as_total = λ (n : ℕ). read_lines ls (some n) avail in
    let as_avail = λ (n : ℕ). read_lines ls total (some n) in
    let other = read_lines ls total avail in
    if has_prefix (codes "MemTotal:") l
    then (elim (second_int l) [ none ↦ none | some n ↦ as_total n ])
    else (if has_prefix (codes "MemAvailable:") l
        then (elim (second_int l) [ none ↦ none | some n ↦ as_avail n ])
        else other)
