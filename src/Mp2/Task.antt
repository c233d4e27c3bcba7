-- ===== src/Mp2/Task.antt =====
-- The augmented task structure and the task list of MP2/mp2.c. A `struct mp_task_struct` is a
-- record with its own address; `head` is the sequence of the structures linked on it, in the order
-- in which `list_for_each_entry` visits them, and `list_add` puts one in front.
pub mod Laws
use cs423_2017sp.Prelude.{
  ℕ, Bool, true, false, not, ◌&&◌, Option, none, some, List, [], ◌∷◌, ◌==◌, if◌then◌else◌,
}
use cs423_2017sp.Prelude.Int.{ℤ, eqb_ℤ}
use cs423_2017sp.Prelude.Memory.{Ptr, null}

-- `SLEEPING`, `READY` and `RUNNING`.
pub data TaskState : Type 0 where
  sleeping ready running : TaskState

abbrev pub is_ready : TaskState → Bool
is_ready sleeping = false
is_ready ready = true
is_ready running = false

-- `struct mp_task_struct`. `timer` is the expiry of `task_timer` while it is pending, and `task`
-- the address of the Linux task.
pub record MpTask : Type 0 where
  pub addr : Ptr
  pub task : Ptr
  pub timer : Option ℕ
  pub task_state : TaskState
  pub next_period : ℕ
  pub pid : ℤ
  pub period : ℤ
  pub processing_time : ℤ

-- The static variables: the list, `running_mptask`, and whether the dispatcher has been woken since
-- it last went to sleep.
pub record Scheduler : Type 0 where
  pub tasks : List MpTask
  pub running_mptask : Ptr
  pub dispatcher_awake : Bool

-- Whether a pointer is that of a Linux task, by those that have one; `live` is the kernel's.
abbrev pub exists : (live : Ptr → Bool) → Ptr → Bool
exists live p = not (p == null) && live p

-- `__get_task_by_pid`
unfoldable pub get_task_by_pid : ℤ → List MpTask → Option MpTask
get_task_by_pid pid [] = none
get_task_by_pid pid (t ∷ ts) = if eqb_ℤ t.pid pid then some t else get_task_by_pid pid ts

-- The structure at an address.
unfoldable pub at : Ptr → List MpTask → Option MpTask
at p [] = none
at p (t ∷ ts) = if t.addr == p then some t else at p ts

-- A write to the structure at an address.
unfoldable pub modify : Ptr → (MpTask → MpTask) → List MpTask → List MpTask
modify p f [] = []
modify p f (t ∷ ts) = if t.addr == p then f t ∷ ts else t ∷ modify p f ts

-- `list_del` of the structure at an address.
unfoldable pub list_del : Ptr → List MpTask → List MpTask
list_del p [] = []
list_del p (t ∷ ts) = if t.addr == p then ts else t ∷ list_del p ts

abbrev pub set_state : TaskState → MpTask → MpTask
set_state st t = record t { task_state = st }
