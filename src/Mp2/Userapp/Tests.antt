-- ===== src/Mp2/Userapp/Tests.antt =====
-- The file operations of MP2/mp2.c and the application of MP2/userapp.c at concrete inputs.
use cs423_2017sp.Prelude.{
  Option-cases, inl, inr, ℕ, zero, suc, ◌+◌, ◌-◌, ◌*◌, ◌/◌, ◌%◌, ◌≡◌, ◌∙◌, ap, refl, true, false,
  ◌&&◌, Option, none, some, List, [], ◌∷◌, ◌++◌, arith, leb, ltb, take, ◌==◌, if◌then◌else◌,
}
use cs423_2017sp.Prelude.Int.{ℤ, ◌*ℤ◌, pos, negsuc}
use cs423_2017sp.Prelude.Memory.{Ptr, null}
use cs423_2017sp.Mp2.Task.{MpTask, Scheduler, sleeping, ready}
use cs423_2017sp.Mp2.Registration.{registration, de_registration, timer_callback}
use cs423_2017sp.Mp2.Dispatcher.{Call, wake_up_process}
use cs423_2017sp.Mp2.Userapp.Main.{main}
use cs423_2017sp.Mp2.Userapp.Main.Restores.{idents, idents-modify, main-idents}
use cs423_2017sp.Mp2.Admission.{admission_control, task_util, int_div, add_utils}
use cs423_2017sp.Mp2.Task.{get_task_by_pid, list_del}
use cs423_2017sp.Mp2.Registration.{new_task}
use cs423_2017sp.Mp2.Userapp.{strings_equal}
use cs423_2017sp.Mp2.Yield.{yield_handle, next_release}
use cs423_2017sp.Mp2.Task.{modify, set_state}
use cs423_2017sp.Mp2.Proc.{mp_read, mp_write, mp_init, mp_exit, Meets}
use cs423_2017sp.Mp2.Userapp.{factorial, reg, yield, unreg, read_status}
use cs423_2017sp.Mp2.Userapp.Lines.{Plain, Plain-append}
use cs423_2017sp.Mp2.Userapp.Handshake.{handshake}

-- `sprintf` of a number of at most `fuel` digits.
abbrev digits : (fuel n : ℕ) → List ℕ
digits zero n = []
digits (suc fuel) n =
    let front = digits fuel (n / 10) in
    if ltb n 10 then (48 + n) ∷ [] else front ++ (48 + n % 10) ∷ []

digits-Plain : (fuel n : ℕ) → Plain (digits fuel n)
digits-Plain zero n = tt
digits-Plain (suc fuel) n = ground (
  arith,
  Plain-append (digits fuel (n / 10)) ((48 + n % 10) ∷ []) (digits-Plain fuel (n / 10))
      (omega arith, tt),
)

abbrev decimal : ℤ → List ℕ
decimal (pos n) = digits 20 n
decimal (negsuc n) = 45 ∷ digits 20 (suc n)

decimal-Plain : (z : ℤ) → Plain (decimal z)
decimal-Plain (pos n) = digits-Plain 20 n
decimal-Plain (negsuc n) = (omega arith, digits-Plain 20 (suc n))

-- `sscanf` of numbers without a sign.
abbrev flush : Option ℕ → List ℤ → List ℤ
flush none ns = ns
flush (some n) ns = pos n ∷ ns

abbrev value : Option ℕ → ℕ
value none = 0
value (some n) = n

abbrev numbers : Option ℕ → List ℕ → List ℤ
numbers n [] = flush n []
numbers n (c ∷ cs) =
    let digit = numbers (some (value n * 10 + (c - 48))) cs in
    let other = numbers none cs in if leb 48 c && ltb c 58 then digit else flush n other

abbrev sscanf : (fields : ℕ) → List ℕ → List ℤ
sscanf fields cs = take fields (numbers none cs)

abbrev find : ℤ → Ptr
find _ = 5

abbrev same_number : ℕ → ℕ
same_number n = n

abbrev task_at : Ptr → ℕ → MpTask
task_at p pid = record {
  addr = p;
  task = 5;
  timer = none;
  task_state = ready;
  next_period = 0;
  pid = pos pid;
  period = pos 30;
  processing_time = pos 5;
}

abbrev one_task : Scheduler
one_task = record { tasks = task_at 8 3 ∷ []; running_mptask = null; dispatcher_awake = false }

abbrev meets : Meets
meets = record {
  memory = task_at 9 77;
  stack = pos 0;
  jiffies = 100;
  later = 101;
  live = λ p. p == 5;
}

mp_write-reg :
    mp_write sscanf find same_number
      (reg (decimal (pos 12)) (decimal (pos 20)) (decimal (pos 5)))
      meets
      mp_init
    ≡ some (
      record mp_init {
        tasks = record (task_at 9 12) { task_state = sleeping; period = pos 20 } ∷ [];
      },
      false,
    )
unfolding mp_write registration admission_control task_util int_div new_task ◌*ℤ◌ add_utils
mp_write-reg = refl

mp_write-unreg :
    mp_write sscanf find same_number (unreg (decimal (pos 3))) meets one_task
    ≡ some (mp_init, false)
unfolding mp_write de_registration get_task_by_pid list_del
mp_write-unreg = refl

mp_write_other : mp_write sscanf find same_number [] meets one_task ≡ some (one_task, false)
unfolding mp_write
mp_write_other = refl

mp_exit_test : mp_exit one_task ≡ (mp_init, 8 ∷ [])
unfolding mp_exit
mp_exit_test = refl

handshake_example :
    (s' : Scheduler) × (text : List ℕ) × (position : ℕ) × (mp_write sscanf find same_number
        (reg (decimal (pos 12)) (decimal (pos 20)) (decimal (pos 5)))
        meets
        one_task
      ≡ some (s', false))
    × (mp_read decimal 0 [] s' ≡ some (text, position))
    × (read_status (decimal (pos 12)) (decimal (pos 20)) (decimal (pos 5)) text ≡ some (pos 0))
    × (s'.tasks ≡ new_task find (pos 12 ∷ pos 20 ∷ pos 5 ∷ []) meets.memory ∷ one_task.tasks)
unfolding admission_control task_util int_div new_task ◌*ℤ◌ add_utils strings_equal
handshake_example =
    handshake decimal sscanf find same_number (pos 12) (pos 20) (pos 5) meets [] one_task true
      decimal-Plain refl refl refl refl (λ e. refl) refl (ground arith) (omega arith)

mp_write-yield :
    mp_write sscanf find same_number (yield (decimal (pos 3))) meets one_task
    ≡ some (
      record one_task {
        tasks =
            record (task_at 8 3) { timer = some 130; next_period = 130; task_state = sleeping }
            ∷ [];
        dispatcher_awake = true;
      },
      true,
    )
unfolding mp_write yield_handle get_task_by_pid next_release modify
mp_write-yield = refl

-- The timer of the application fires after each yield, and the dispatcher wakes it.
abbrev after_timer : Scheduler → Option Scheduler → Scheduler
after_timer s none = s
after_timer s (some s') = s'

abbrev wakes : ℕ → Scheduler → Scheduler × List Call
wakes k s = (after_timer s (timer_callback (pos 12) s), wake_up_process 5 ∷ [])

wakes-idents : (k : ℕ) (s : Scheduler) → idents (wakes k s).0.tasks ≡ idents s.tasks
unfolding timer_callback
wakes-idents k s = elim (Option-cases (get_task_by_pid (pos 12) s.tasks)) [
  | inl absent ↦
      let passes : timer_callback (pos 12) s ≡ none = rw (timer_callback, absent) refl in
      ap (λ o. idents (after_timer s o).tasks) passes
  | inr (t, found) ↦
      let s' : Scheduler = record s {
        tasks = modify t.addr (set_state ready) s.tasks;
        dispatcher_awake = true;
      } in
      let fires : timer_callback (pos 12) s ≡ some s' = rw (timer_callback, found) refl in
      ap (λ o. idents (after_timer s o).tasks) fires
      ∙ idents-modify t.addr (set_state ready) s.tasks (λ u. refl) (λ u. refl) (λ u. refl)
]

main-idents_example :
    (s' : Scheduler) × (main decimal sscanf find same_number
        (λ k. meets)
        wakes
        (pos 12)
        (pos 20)
        (pos 5)
        (pos 3)
        []
        one_task
      ≡ some (0, s'))
    × (idents s'.tasks ≡ (pos 3, 8, 5) ∷ [])
unfolding admission_control task_util int_div new_task ◌*ℤ◌ add_utils strings_equal
main-idents_example =
    main-idents decimal sscanf find same_number (λ k. meets) wakes wakes-idents (pos 12) (pos 20)
      (pos 5) (pos 3) [] one_task true decimal-Plain refl refl refl (λ k. refl) (λ k s. refl) refl
      refl (λ e. refl) refl (ground arith) (omega arith)

-- The last factor is 0.
factorial_test : factorial 13 1 ≡ some 0
unfolding factorial
factorial_test = refl

-- The partial product 13 * 12 * ... overflows before it.
factorial_overflow_test : factorial 14 1 ≡ none
unfolding factorial
factorial_overflow_test = refl
