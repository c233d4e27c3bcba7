-- ===== src/Mp3/Profiler/Sample.antt =====
-- What one run of `mp_work_func` of MP3/mp3.c samples.
use cs423_2017sp.Prelude.{
  ℕ, ◌+◌, ◌%◌, ◌^◌, ◌≤◌, ◌<◌, ◌≡◌, ◌∙◌, refl, sym, ap, Bool, true, false, Option, none, some, List,
  [], ◌∷◌, arith, Bool-cases, Option-cases, inl, inr, if◌then◌else◌,
}
use cs423_2017sp.Prelude.Int.{ℤ, eqb_ℤ, eqb_ℤ→eq}
use cs423_2017sp.Mp3.Profiler.{
  Process, Processes, reset, get_cpu_use, Profiled, Profiler, Totals, add_usage, buffer_words,
  sum_usage, usage, sample, mp_work_func,
}
use cs423_2017sp.Mp3.Profiler.Capacity.{Stored, store_all-Stored}

-- A count of the registered processes that still exist, summed up without a bound.
abbrev pub count_of : (Process → ℕ) → Option Process → ℕ
count_of f none = 0
count_of f (some u) = f u

abbrev pub sum_of : (Process → ℕ) → List Profiled → Processes → ℕ
sum_of f [] ps = 0
sum_of f (e ∷ es) ps = count_of f (ps e.pid) + sum_of f es ps

abbrev pub has_pid : ℤ → List Profiled → Bool
has_pid pid [] = false
has_pid pid (e ∷ es) = if eqb_ℤ e.pid pid then true else has_pid pid es

-- No process is registered twice.
abbrev pub DistinctPids : List Profiled → Type 0
DistinctPids [] = Unit
DistinctPids (e ∷ es) = (has_pid e.pid es ≡ false) × DistinctPids es

abbrev reset_at : ℤ → Process → Processes → Processes
reset_at pid u ps q = if eqb_ℤ q pid then some (reset u) else ps q

sum_of-reset_at :
    (f : Process → ℕ) (pid : ℤ) (u : Process) (es : List Profiled) (ps : Processes)
    → has_pid pid es ≡ false
    → sum_of f es (reset_at pid u ps) ≡ sum_of f es ps
sum_of-reset_at f pid u [] ps out = refl
sum_of-reset_at f pid u (e ∷ es) ps out = elim (Bool-cases (eqb_ℤ e.pid pid)) [
  | inl same ↦ absurd (ground (arith, same))
  | inr other ↦
      rw other
        (ap (λ n. count_of f (ps e.pid) + n) (sum_of-reset_at f pid u es ps (rw other at out)))
]

-- The totals of a list, on top of what they were.
pub record Summed (es : List Profiled) (ps : Processes) (t t' : Totals) : Type 0 where
  pub minor : t'.min_flt_sum ≡ (t.min_flt_sum + sum_of (λ u. u.min_flt) es ps) % 2 ^ 64
  pub major : t'.maj_flt_sum ≡ (t.maj_flt_sum + sum_of (λ u. u.maj_flt) es ps) % 2 ^ 64
  pub cpu : t'.cpu_time_sum ≡ (t.cpu_time_sum + sum_of (λ u. u.utime + u.stime) es ps) % 2 ^ 64

-- The totals fit into 64 bits.
abbrev Fits : Totals → Type 0
Fits t = (t.min_flt_sum < 2 ^ 64) × (t.maj_flt_sum < 2 ^ 64) × (t.cpu_time_sum < 2 ^ 64)

sum_usage-Summed :
    (es : List Profiled) (ps : Processes) (t : Totals)
    → DistinctPids es
    → Fits t
    → Summed es ps t (sum_usage es ps t).0
unfolding sum_usage get_cpu_use
sum_usage-Summed [] ps t d fits = record {
  minor = omega (arith, fits.0);
  major = omega (arith, fits.1);
  cpu = omega (arith, fits.2);
}
sum_usage-Summed (e ∷ es) ps t d fits = elim (Option-cases (ps e.pid)) [
  | inl gone ↦
      let rest = sum_usage-Summed es ps t d.1 fits in
      rw (sum_usage, get_cpu_use, gone)
        (record {
          minor = rest.minor ∙ rw gone (omega arith);
          major = rest.major ∙ rw gone (omega arith);
          cpu = rest.cpu ∙ rw gone (omega arith);
        })
  | inr (u, found) ↦
      let ps' = reset_at e.pid u ps in
      let rest =
        sum_usage-Summed es ps' (add_usage u t) d.1 (omega arith, omega arith, omega arith) in
      rw (sum_usage, get_cpu_use, found)
        (record {
          minor =
              rest.minor
              ∙ rw (found, sum_of-reset_at (λ v. v.min_flt) e.pid u es ps d.0) (omega arith);
          major =
              rest.major
              ∙ rw (found, sum_of-reset_at (λ v. v.maj_flt) e.pid u es ps d.0) (omega arith);
          cpu =
              rest.cpu
              ∙ rw (found, sum_of-reset_at (λ v. v.utime + v.stime) e.pid u es ps d.0)
                  (omega arith);
        })
]

abbrev pub reset_process : Option Process → Option Process
reset_process none = none
reset_process (some u) = some (reset u)

-- The counters of the registered processes start again at 0.
abbrev pub counted : List Profiled → Processes → Processes
counted es ps pid = if has_pid pid es then reset_process (ps pid) else ps pid

counted-none :
    (es : List Profiled) (ps : Processes) (pid : ℤ) → ps pid ≡ none → counted es ps pid ≡ none
counted-none es ps pid gone = rw gone (same_either (has_pid pid es))
  where
    same_either : (b : Bool) → (if b then reset_process none else none) ≡ none
    same_either true = refl
    same_either false = refl

counted-reset :
    (es : List Profiled) (ps : Processes) (pid : ℤ) (u : Process)
    → ps pid ≡ some (reset u)
    → counted es ps pid ≡ some (reset u)
counted-reset es ps pid u found = rw found (same_either (has_pid pid es))
  where
    same_either :
        (b : Bool) → (if b then reset_process (some (reset u)) else some (reset u)) ≡ some (reset u)
    same_either true = refl
    same_either false = refl

eqb_ℤ-sym : (a b : ℤ) → eqb_ℤ a b ≡ eqb_ℤ b a
eqb_ℤ-sym a b = ground arith

sum_usage-counted :
    (es : List Profiled) (ps : Processes) (t : Totals) (pid : ℤ)
    → (sum_usage es ps t).1 pid ≡ counted es ps pid
unfolding sum_usage get_cpu_use
sum_usage-counted [] ps t pid = refl
sum_usage-counted (e ∷ es) ps t pid = elim (Option-cases (ps e.pid)) [
  | inl gone ↦ elim (Bool-cases (eqb_ℤ e.pid pid)) [
    | inl here ↦
        let missing : ps pid ≡ none = rw (← eqb_ℤ→eq e.pid pid here) gone in
        rw (sum_usage, get_cpu_use, gone)
          (sum_usage-counted es ps t pid
            ∙ counted-none es ps pid missing
            ∙ sym (counted-none (e ∷ es) ps pid missing))
    | inr there ↦ rw (sum_usage, get_cpu_use, gone, there) (sum_usage-counted es ps t pid)
  ]
  | inr (u, found) ↦
      let ps' = reset_at e.pid u ps in
      let rest = sum_usage-counted es ps' (add_usage u t) pid in
      elim (Bool-cases (eqb_ℤ e.pid pid)) [
        | inl here ↦
            let is_pid = eqb_ℤ→eq e.pid pid here in
            let reset_here : ps' pid ≡ some (reset u) = rw (eqb_ℤ-sym pid e.pid, here) in
            let was : ps pid ≡ some u = rw (← is_pid) found in
            rw (sum_usage, get_cpu_use, found, here, was)
              (rest ∙ counted-reset es ps' pid u reset_here)
        | inr there ↦
            let kept : ps' pid ≡ ps pid = rw (eqb_ℤ-sym pid e.pid, there) in
            rw (sum_usage, get_cpu_use, found, there) (rest ∙ rw kept)
      ]
]

-- A run of the work function with room for a sample in the buffer does not fault. It appends four
-- words and keeps all others: the time; the sums, over the registered processes that still exist,
-- of the minor and major page faults since the last sample, modulo 2 ^ 64; and the sum of their
-- user and system times modulo 2 ^ 64, in milliseconds. It sets the counters of these processes
-- back to 0 and leaves all others, and it queues itself again. No process is registered twice.
pub mp_work_func-Stored :
    (to_msecs : ℕ → ℕ) (jiffies : ℕ) (p : Profiler) (ps : Processes)
    → DistinctPids p.tasks
    → p.mem_buf_ptr + 4 ≤ buffer_words
    → (p' : Profiler) × (ps' : Processes) × (mp_work_func to_msecs jiffies p ps ≡ some (p', ps'))
      × Stored
          (jiffies
            ∷ sum_of (λ u. u.min_flt) p.tasks ps % 2 ^ 64
            ∷ sum_of (λ u. u.maj_flt) p.tasks ps % 2 ^ 64
            ∷ to_msecs (sum_of (λ u. u.utime + u.stime) p.tasks ps % 2 ^ 64)
            ∷ [])
          p
          p'
      × ((pid : ℤ) → ps' pid ≡ counted p.tasks ps pid)
      × (p'.pending ≡ true)
unfolding mp_work_func
mp_work_func-Stored to_msecs jiffies p ps d fits =
    let zero : Totals = record { min_flt_sum = 0; maj_flt_sum = 0; cpu_time_sum = 0 } in
    let (p', run, st) = store_all-Stored (sample to_msecs jiffies (usage p ps).0) p (omega arith) in
    let sums = sum_usage-Summed p.tasks ps zero d (omega arith, omega arith, omega arith) in
    (
      record p' { pending = true },
      (usage p ps).1,
      rw (mp_work_func, run),
      record {
        ptr = st.ptr;
        words = (
          st.words.0,
          (
            st.words.1.0 ∙ (sums.minor ∙ from_0 _),
            (
              st.words.1.1.0 ∙ (sums.major ∙ from_0 _),
              (st.words.1.1.1.0 ∙ ap to_msecs (sums.cpu ∙ from_0 _), tt),
            ),
          ),
        );
        before = st.before;
        behind = st.behind;
        tasks = st.tasks;
      },
      sum_usage-counted p.tasks ps zero,
      refl,
    )
  where
    from_0 : (n : ℕ) → (0 + n) % 2 ^ 64 ≡ n % 2 ^ 64
    from_0 n = omega arith
