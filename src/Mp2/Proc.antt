-- ===== src/Mp2/Proc.antt =====
-- The file operations of MP2/mp2.c, `mp_read` and `mp_write`, with `mp_init` and `mp_exit`. Texts
-- are lists of characters without the 0 that ends them. `decimal` is what `sprintf` writes for
-- `%d`, and `sscanf` the numbers that the function of that name reads by a format of as many `%d`.
use cs423_2017sp.Prelude.{
  ℕ, ◌+◌, Bool, false, Option, none, some, List, [], ◌∷◌, ◌++◌, leb, ltb, ◌==◌, drop, length, map,
  if◌then◌else◌,
}
use cs423_2017sp.Prelude.Int.{ℤ, pos}
use cs423_2017sp.Prelude.Memory.{Ptr, null}
use cs423_2017sp.Mp2.Task.{MpTask, TaskState, sleeping, ready, running, Scheduler}
use cs423_2017sp.Mp2.Registration.{registration, de_registration}
use cs423_2017sp.Mp2.Yield.{yield_handle}

abbrev pub state_number : TaskState → ℕ
state_number sleeping = 0
state_number ready = 1
state_number running = 2

-- A number, "[", a state, "]: ", a number, " ms, ", a number and " ms\n".
abbrev pub status_line : (pid state period processing_time : List ℕ) → List ℕ
status_line pid state period processing_time =
    pid
    ++ 91
      ∷ (state
          ++ 93
            ∷ 58
            ∷ 32
            ∷ (period ++ 32 ∷ 109 ∷ 115 ∷ 44 ∷ 32 ∷ (processing_time ++ 32 ∷ 109 ∷ 115 ∷ 10 ∷ [])))

abbrev pub task_line : (decimal : ℤ → List ℕ) → MpTask → List ℕ
task_line decimal t =
    status_line (decimal t.pid) (decimal (pos (state_number t.task_state))) (decimal t.period)
      (decimal t.processing_time)

module _ (decimal : ℤ → List ℕ) where
  -- The loop of `mp_read`, from the text so far; `none` writes behind the buffer.
  unfoldable pub append_tasks : List MpTask → List ℕ → Option (List ℕ)
  append_tasks [] buf = some buf
  append_tasks (t ∷ ts) buf =
      let all = append_tasks ts (buf ++ task_line decimal t) in
      if leb (length (buf ++ task_line decimal t) + 1) 2048 then all else none

  -- Without any task the buffer keeps what the memory held, up to the first 0.
  abbrev pub first_buffer : List ℕ → List MpTask → List ℕ
  first_buffer memory [] = memory
  first_buffer memory (_ ∷ _) = []

  -- `mp_read`: the characters that are copied to the user, and the new position of the file.
  unfoldable pub mp_read : (position : ℕ) → (memory : List ℕ) → Scheduler → Option (List ℕ × ℕ)
  mp_read position memory s =
      if ltb 0 position
      then some ([], position)
      else elim (append_tasks s.tasks (first_buffer memory s.tasks)) [
        | none ↦ none
        | some text ↦ some (text ++ 0 ∷ [], position + (length text + 1))
      ]

-- The first character that `mp_write` copied, or the 0 that it puts behind them.
abbrev first_char : List ℕ → ℕ
first_char [] = 0
first_char (c ∷ _) = c

-- The `int pid` of a handler, whose stack held `old`, after `sscanf`.
abbrev read_pid : ℤ → List ℤ → ℤ
read_pid old [] = old
read_pid old (pid ∷ _) = pid

-- What a write meets: the memory that the slab allocator returns, the old contents of the stack,
-- the two values of `jiffies`,
-- and which Linux tasks exist.
pub record Meets : Type 0 where
  pub memory : MpTask
  pub stack : ℤ
  pub jiffies : ℕ
  pub later : ℕ
  pub live : Ptr → Bool

module _ (sscanf : (fields : ℕ) → List ℕ → List ℤ) (find_task_by_pid : ℤ → Ptr)
    (msecs_to_jiffies : ℕ → ℕ) where
  -- `mp_write`. The second field says whether the caller goes to sleep.
  unfoldable pub mp_write : List ℕ → Meets → Scheduler → Option (Scheduler × Bool)
  mp_write buf m s =
      if first_char buf == 82
      then elim (registration find_task_by_pid (sscanf 3 (drop 3 buf)) m.memory s) [
        | none ↦ none
        | some s' ↦ some (s', false)
      ]
      else if first_char buf == 89
      then yield_handle msecs_to_jiffies m.live m.jiffies m.later
          (read_pid m.stack (sscanf 1 (drop 3 buf))) s
      else if first_char buf == 68
      then elim (de_registration (read_pid m.stack (sscanf 1 (drop 3 buf))) s) [
        | none ↦ none
        | some s' ↦ some (s', false)
      ]
      else some (s, false)

-- The scheduler that `mp_init` leaves; the dispatcher has not been woken.
abbrev pub mp_init : Scheduler
mp_init = record { tasks = []; running_mptask = null; dispatcher_awake = false }

-- The loop of `mp_exit`: the list and the addresses of the structures that it has freed.
unfoldable pub mp_exit : Scheduler → Scheduler × List Ptr
mp_exit s = (record s { tasks = [] }, map (λ t. t.addr) s.tasks)
