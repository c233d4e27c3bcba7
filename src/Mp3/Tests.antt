-- ===== src/Mp3/Tests.antt =====
-- Tests of the models of MP3, and their theorems at concrete inputs.
use cs423_2017sp.Prelude.{
  replicate, ℕ, ◌+◌, ◌*◌, ◌%◌, ◌^◌, ◌<◌, ◌≡◌, ◌≢◌, All, refl, Bool, true, false, none, some, [],
  ◌∷◌, arith, is_some, leb, ltb, ◌==◌, if◌then◌else◌,
}
use cs423_2017sp.Prelude.Int.{ℤ, pos, negsuc, eqb_ℤ, ◌+ℤ◌}
use cs423_2017sp.Prelude.Memory.{Ptr, null}
use cs423_2017sp.Mp3.Profiler.{
  Processes, Profiled, Profiler, mp_init, registration, unregistration, enlist, new_task, mp_write,
  mp_work_func, store_all, store, get_task_by_pid, get_cpu_use, sum_usage,
}
use cs423_2017sp.Mp3.Profiler.Capacity.{Stored, work_all, work_all_iff}
use cs423_2017sp.Mp3.Profiler.Sample.{sum_of, counted, mp_work_func-Stored}
use cs423_2017sp.Mp3.Profiler.Pending.{Samples, Reach, start, later, write, Reach-Samples}
use cs423_2017sp.Mp3.Mmap.{Mapping, map_pages, dev_mmap, outcome, page_list, dev_mmap-outcome}
use cs423_2017sp.Mp3.Monitor.{Printing, bufd_max, cleared, monitor}
use cs423_2017sp.Mp3.Reports.{sampled, reports}
use cs423_2017sp.Mp3.Work.{
  Exit, out_of_memory, finished, allocate, iterations, local_access, rand_access, work,
}
use cs423_2017sp.Mp3.Work.Safety.{Ended, work-Ended}

abbrev same : ℕ → ℕ
same n = n

abbrev running : Processes
running pid =
    if eqb_ℤ pid (pos 7)
    then some (record { task = 70; min_flt = 3; maj_flt = 2; utime = 5; stime = 1 })
    else none

abbrev profiled : ℕ → ℤ → Profiled
profiled addr pid = record {
  addr = addr;
  task = 70;
  utilization = 0;
  major_fault = 0;
  minor_fault = 0;
  pid = pid;
}

abbrev sampling : Profiler
sampling = record {
  tasks = profiled 10 (pos 7) ∷ profiled 20 (pos 8) ∷ [];
  mem_buf = λ _. 0;
  mem_buf_ptr = 4;
  pending = true;
}

-- A process that is registered twice has its faults counted once, since the counters are reset.
twice_test :
    (sum_usage
      (profiled 10 (pos 7) ∷ profiled 20 (pos 7) ∷ [])
      running
      (record { min_flt_sum = 0; maj_flt_sum = 0; cpu_time_sum = 0 })).0
    ≡ record { min_flt_sum = 3; maj_flt_sum = 2; cpu_time_sum = 6 }
unfolding sum_usage get_cpu_use
twice_test = refl

unknown_pid_test : unregistration (pos 9) sampling ≡ none
unfolding unregistration get_task_by_pid
unknown_pid_test = refl

mp_work_func-Stored_example :
    (p' : Profiler) × (ps' : Processes) × (mp_work_func same 1000 sampling running ≡ some (p', ps'))
    × Stored
        (1000
          ∷ sum_of (λ u. u.min_flt) sampling.tasks running % 2 ^ 64
          ∷ sum_of (λ u. u.maj_flt) sampling.tasks running % 2 ^ 64
          ∷ same (sum_of (λ u. u.utime + u.stime) sampling.tasks running % 2 ^ 64)
          ∷ [])
        sampling
        p'
    × ((pid : ℤ) → ps' pid ≡ counted sampling.tasks running pid)
    × (p'.pending ≡ true)
mp_work_func-Stored_example =
    mp_work_func-Stored same 1000 sampling running (refl, (refl, tt)) (omega arith)

work_all_iff_example :
    is_some (work_all same (1 ∷ 2 ∷ 3 ∷ []) (record sampling { mem_buf_ptr = 0 }) running)
    ≡ leb 3 16384
work_all_iff_example =
    work_all_iff same (1 ∷ 2 ∷ 3 ∷ []) (record sampling { mem_buf_ptr = 0 }) running refl

abbrev registered : Profiler
registered = record {
  tasks = profiled 10 (pos 7) ∷ [];
  mem_buf = λ _. 0;
  mem_buf_ptr = 0;
  pending = true;
}

Reach-registered : Reach same registered
unfolding mp_init mp_write registration enlist new_task
Reach-registered = later start (write 82 (some (pos 7)) (pos 0) (profiled 10 (pos 0)) running refl)

Reach-Samples_example : Samples registered
Reach-Samples_example = Reach-Samples Reach-registered

abbrev frame : ℕ → ℕ
frame a = a + 1

-- The third page cannot be mapped.
abbrev fails : Mapping → Bool
fails (a, _) = a == 12288

map_test : map_pages frame fails 5 4096 0 12288 [] ≡ some (negsuc 10, (4096, 1) ∷ (8192, 4097) ∷ [])
unfolding map_pages
map_test = refl

dev_mmap-outcome_example :
    dev_mmap frame fails 4096 (4096 + 3 * 4096) 0
    ≡ some (
        if ltb 128 3 then (negsuc 21, []) else outcome frame fails (page_list frame fails 4096 0 3))
dev_mmap-outcome_example = dev_mmap-outcome frame fails 4096 0 3 (omega arith) (omega arith)

-- Two words of `-1`, one line, and `-1` behind it.
abbrev drained : ℕ → ℕ
drained j = if ltb j bufd_max then cleared else 7

abbrev on_drained : Profiler
on_drained = record registered { mem_buf = drained; mem_buf_ptr = 8 }

no_cleared : All (λ w. w ≢ cleared) (sampled same (100 ∷ 200 ∷ []) on_drained running)
unfolding mp_work_func sum_usage get_cpu_use store_all store
no_cleared = (
  λ e. omega (arith, e),
  (
    λ e. omega (arith, e),
    (
      λ e. omega (arith, e),
      (
        λ e. omega (arith, e),
        (
          λ e. omega (arith, e),
          (λ e. omega (arith, e), (λ e. omega (arith, e), (λ e. omega (arith, e), tt))),
        ),
      ),
    ),
  ),
)

reports_example :
    (p' : Profiler) × (ps' : Processes) × (s : Printing) × (work_all same
        (100 ∷ 200 ∷ [])
        on_drained
        running
      ≡ some (p', ps'))
    × (monitor p'.mem_buf ≡ some (s, 2))
    × (s.printed ≡ sampled same (100 ∷ 200 ∷ []) on_drained running)
    × ((j : ℕ) → j < bufd_max → s.buf j ≡ cleared)
    × (p'.mem_buf_ptr ≡ 16)
reports_example =
    reports same (100 ∷ 200 ∷ []) on_drained running (λ j h. ground arith) (omega arith)
      (omega arith) no_cleared

-- The third block is refused.
abbrev two_blocks : ℕ → Ptr
two_blocks i = if ltb i 2 then 100 + i else null

work_test :
    work (λ k. pos 5000000) two_blocks (pos 3) (pos 1) false ≡ some (out_of_memory (101 ∷ 100 ∷ []))
unfolding work allocate
work_test = refl

work_random_test :
    work (λ k. pos 1048577) two_blocks (pos 2) (pos 1) false
    ≡ some (finished (replicate 20 (1, 1)) (100 ∷ 101 ∷ []))
unfolding work allocate iterations rand_access
work_random_test = refl

work_local_test :
    work (λ k. negsuc 1048577) two_blocks (pos 2) (pos 1) true ≡ some (finished [] (100 ∷ 101 ∷ []))
unfolding work allocate iterations local_access ◌+ℤ◌
work_local_test = refl

work-Ended_example :
    (exit : Exit) × (work (λ k. pos k) two_blocks (pos 2) (pos 5) true ≡ some exit)
    × Ended two_blocks (pos 2) (pos 5) exit
work-Ended_example = work-Ended (λ k. pos k) two_blocks (pos 2) (pos 5) true (omega arith)
