-- ===== src/Mp3/Profiler.antt =====
-- The profiler of MP3/mp3.c, with `get_cpu_use` of MP3/mp3_given.h: the registered processes, the
-- work function that samples them, and the buffer that it fills. `none` is a kernel oops: NULL is
-- read, or an address behind the buffer is written. The kernel's table of processes is part of the
-- state, since `get_cpu_use` resets its counters.
pub mod Sample
pub mod Capacity
pub mod Pending
use cs423_2017sp.Prelude.{
  ℕ, suc, ◌+◌, ◌*◌, ◌%◌, ◌^◌, ◌/◌, Bool, true, false, Option, none, some, List, [], ◌∷◌, ◌==◌, ltb,
  if◌then◌else◌,
}
use cs423_2017sp.Prelude.Int.{ℤ, eqb_ℤ}
use cs423_2017sp.Prelude.Memory.{Ptr, null}

-- What the profiler reads of a `struct task_struct`, with its address.
pub record Process : Type 0 where
  pub task : Ptr
  pub min_flt : ℕ
  pub maj_flt : ℕ
  pub utime : ℕ
  pub stime : ℕ

abbrev pub Processes : Type 0
Processes = ℤ → Option Process

abbrev pub reset : Process → Process
reset u = record u { min_flt = 0; maj_flt = 0; utime = 0; stime = 0 }

-- `get_cpu_use`: what it stored, and the processes it leaves; `none` is the result -1.
unfoldable pub get_cpu_use : ℤ → Processes → Option (Process × Processes)
get_cpu_use pid ps = elim (ps pid) [
  | none ↦ none
  | some u ↦ some (u, λ q. if eqb_ℤ q pid then some (reset u) else ps q)
]

-- `struct mp_task_struct`, with its address.
pub record Profiled : Type 0 where
  pub addr : Ptr
  pub task : Ptr
  pub utilization : ℕ
  pub major_fault : ℕ
  pub minor_fault : ℕ
  pub pid : ℤ

-- `PAGE_NUM * PAGE_SIZE / sizeof(unsigned long)`
abbrev pub buffer_words : ℕ
buffer_words = 128 * 4096 / 8

-- The static variables: the list `head`, the buffer, and whether `mp_delayed_work` is queued.
pub record Profiler : Type 0 where
  pub tasks : List Profiled
  pub mem_buf : ℕ → ℕ
  pub mem_buf_ptr : ℕ
  pub pending : Bool

-- What `mp_init` leaves.
unfoldable pub mp_init : Profiler
mp_init = record { tasks = []; mem_buf = λ _. 0; mem_buf_ptr = 0; pending = false }

abbrev pub list_empty : List Profiled → Bool
list_empty [] = true
list_empty (_ ∷ _) = false

unfoldable pub get_task_by_pid : ℤ → List Profiled → Option Profiled
get_task_by_pid pid [] = none
get_task_by_pid pid (t ∷ ts) = if eqb_ℤ t.pid pid then some t else get_task_by_pid pid ts

unfoldable pub list_del : Ptr → List Profiled → List Profiled
list_del p [] = []
list_del p (t ∷ ts) = if t.addr == p then ts else t ∷ list_del p ts

-- `sscanf` leaves the number that it read, or what stood there.
abbrev pub scan_pid : Option ℤ → ℤ → ℤ
scan_pid none pid = pid
scan_pid (some n) pid = n

-- The address that `find_task_by_pid` returns.
abbrev pub task_address : Option Process → Ptr
task_address none = null
task_address (some u) = u.task

-- The structure that `registration` fills; `memory` is what `kmalloc` returned.
unfoldable pub new_task : Option ℤ → Profiled → Processes → Profiled
new_task scanned memory ps =
    let pid = scan_pid scanned memory.pid in
    record memory {
      pid = pid;
      utilization = 0;
      major_fault = 0;
      minor_fault = 0;
      task = task_address (ps pid);
    }

-- `registration` after it has read `empty_flag`, which it does before it takes the lock.
unfoldable pub enlist :
    (empty_flag : Bool) → Option ℤ → Profiled → Processes → Profiler → Option Profiler
enlist empty_flag scanned memory ps p =
    if memory.addr == null
    then none
    else some (record p {
      tasks = new_task scanned memory ps ∷ p.tasks;
      pending = if empty_flag then true else p.pending;
    })

unfoldable pub registration : Option ℤ → Profiled → Processes → Profiler → Option Profiler
registration scanned memory ps p = enlist (list_empty p.tasks) scanned memory ps p

-- `pid` is what `sscanf` read, or what the variable held before.
unfoldable pub unregistration : ℤ → Profiler → Option Profiler
unregistration pid p = elim (get_task_by_pid pid p.tasks) [
  | none ↦ none
  | some t ↦
      let left = list_del t.addr p.tasks in
      some (record p { tasks = left; pending = if list_empty left then false else p.pending })
]

-- `mp_write` by the first character of its buffer, 'R' or 'U'. `stale` is what the variable for the
-- pid of a removal held before `sscanf`.
unfoldable pub mp_write :
    (first : ℕ) → Option ℤ → (stale : ℤ) → Profiled → Processes → Profiler → Option Profiler
mp_write first scanned stale memory ps p =
    if first == 82
    then registration scanned memory ps p
    else if first == 85
    then unregistration (scan_pid scanned stale) p
    else some p

-- `mp_exit`, which unlinks the structures but does not free them.
unfoldable pub mp_exit : Profiler → Profiler
mp_exit p = record p { tasks = []; pending = false }

pub record Totals : Type 0 where
  pub min_flt_sum : ℕ
  pub maj_flt_sum : ℕ
  pub cpu_time_sum : ℕ

abbrev pub add_usage : Process → Totals → Totals
add_usage u t = record {
  min_flt_sum = (t.min_flt_sum + u.min_flt) % 2 ^ 64;
  maj_flt_sum = (t.maj_flt_sum + u.maj_flt) % 2 ^ 64;
  cpu_time_sum = (t.cpu_time_sum + (u.utime + u.stime) % 2 ^ 64) % 2 ^ 64;
}

-- The loop of `mp_work_func` over the list.
unfoldable pub sum_usage : List Profiled → Processes → Totals → Totals × Processes
sum_usage [] ps t = (t, ps)
sum_usage (e ∷ es) ps t = elim (get_cpu_use e.pid ps) [
  | none ↦ sum_usage es ps t
  | some (u, ps') ↦ sum_usage es ps' (add_usage u t)
]

-- `mem_buf[mem_buf_ptr ++] = w`
unfoldable pub store : ℕ → Profiler → Option Profiler
store w p =
    if ltb p.mem_buf_ptr buffer_words
    then some (record p {
      mem_buf = λ i. if i == p.mem_buf_ptr then w else p.mem_buf i;
      mem_buf_ptr = suc p.mem_buf_ptr;
    })
    else none

unfoldable pub store_all : List ℕ → Profiler → Option Profiler
store_all [] p = some p
store_all (w ∷ ws) p = elim (store w p) [ none ↦ none | some p' ↦ store_all ws p' ]

-- The four words of a sample. `to_msecs` is `jiffies_to_msecs(cputime_to_jiffies(…))`.
abbrev pub sample : (ℕ → ℕ) → (jiffies : ℕ) → Totals → List ℕ
sample to_msecs jiffies t = jiffies ∷ t.min_flt_sum ∷ t.maj_flt_sum ∷ to_msecs t.cpu_time_sum ∷ []

abbrev pub usage : Profiler → Processes → Totals × Processes
usage p ps = sum_usage p.tasks ps (record { min_flt_sum = 0; maj_flt_sum = 0; cpu_time_sum = 0 })

-- `mp_work_func`. The test for a full buffer comes after the writes and only prints a message.
unfoldable pub mp_work_func :
    (ℕ → ℕ) → (jiffies : ℕ) → Profiler → Processes → Option (Profiler × Processes)
mp_work_func to_msecs jiffies p ps = elim (store_all (sample to_msecs jiffies (usage p ps).0) p) [
  | none ↦ none
  | some p' ↦ some (record p' { pending = true }, (usage p ps).1)
]
