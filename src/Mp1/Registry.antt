-- ===== src/Mp1/Registry.antt =====
-- The list of registered processes of MP1/mp1.c, with `get_cpu_use` of MP1/mp1_given.h. Characters
-- are numbers. `none` is a write behind the buffer of 2048 bytes.
pub mod Update
pub mod Report
use cs423_2017sp.Prelude.{
  ℕ, zero, suc, ◌+◌, ◌%◌, ◌^◌, ◌*◌, ◌<◌, ◌^◌, Bool, true, false, Option, none, some, List, [], ◌∷◌,
  ◌++◌, length, leb, ltb, if◌then◌else◌,
}
use cs423_2017sp.Prelude.Int.{ℤ, wrap32, bits64}

-- `struct mp1_list`
pub record Entry : Type 0 where
  pub cpu_time : ℕ
  pub pid : ℤ

-- The user times of the processes that exist.
abbrev pub Times : Type 0
Times = ℤ → Option ℕ

-- `get_cpu_use`, which takes the pid as an `int`; `none` is the result -1.
unfoldable pub get_cpu_use : Times → ℤ → Option ℕ
get_cpu_use times pid = times (wrap32 pid)

-- The list, and the expiry of the timer while it is pending, and whether `bottom_work` is queued.
pub record Module : Type 0 where
  pub head : List Entry
  pub timer : Option ℕ
  pub queued : Bool

-- `mp1_init`; `period` is `msecs_to_jiffies(5000)`.
unfoldable pub mp1_init : (jiffies period : ℕ) → Module
mp1_init jiffies period = record {
  head = [];
  timer = some ((jiffies + period) % 2 ^ 64);
  queued = false;
}

-- `mp1_write`: `parsed` is what `kstrtol` stored, and `stale` what the new structure held.
unfoldable pub mp1_write : (parsed : Option ℤ) → (stale : ℤ) → Module → Module
mp1_write parsed stale m = record m {
  head = record { cpu_time = 1337; pid = stored parsed } ∷ m.head;
}
  where
    stored : Option ℤ → ℤ
    stored none = stale
    stored (some n) = n

-- `_timer_callback`
unfoldable pub timer_callback : (jiffies period : ℕ) → Module → Module
timer_callback jiffies period m = record m {
  timer = some ((jiffies + period) % 2 ^ 64);
  queued = true;
}

-- The loop of `bottom_fn`.
unfoldable pub update_entries : Times → List Entry → List Entry
update_entries times [] = []
update_entries times (e ∷ es) = elim (get_cpu_use times e.pid) [
  | some cpu_value ↦ record e { cpu_time = cpu_value } ∷ update_entries times es
  | none ↦ update_entries times es
]

-- `bottom_fn`, which runs when the work queue takes `bottom_work`.
unfoldable pub bottom_fn : Times → Module → Module
bottom_fn times m = record m { head = update_entries times m.head; queued = false }

-- `mp1_exit`
unfoldable pub mp1_exit : Module → Module
mp1_exit m = record { head = []; timer = none; queued = false }

-- The text of one entry, a number, ": ", a number and " ms\n". `decimal` is what `sprintf` writes
-- for an `unsigned long`, `jiffies_to_msecs` is the kernel's.
abbrev pub line : (decimal : ℕ → List ℕ) → (jiffies_to_msecs : ℕ → ℕ) → Entry → List ℕ
line decimal jiffies_to_msecs e =
    decimal (bits64 e.pid)
    ++ 58 ∷ 32 ∷ (decimal (jiffies_to_msecs e.cpu_time) ++ 32 ∷ 109 ∷ 115 ∷ 10 ∷ [])

module _ (decimal : ℕ → List ℕ) (jiffies_to_msecs : ℕ → ℕ) where
  -- The loop of `mp1_read`, from the text so far, whose length is `offset`. `strcpy` also writes
  -- the 0 at the end.
  unfoldable pub append_lines : List Entry → List ℕ → Option (List ℕ)
  append_lines [] buf = some buf
  append_lines (e ∷ es) buf =
      let all = append_lines es (buf ++ line decimal jiffies_to_msecs e) in
      if leb (length (buf ++ line decimal jiffies_to_msecs e) + 1) 2048 then all else none

  -- The first text of `mp1_read`: the first `strcpy` goes to the start of the buffer, and without
  -- any entry the buffer keeps what the memory held, up to the first 0.
  abbrev pub first_text : List ℕ → List Entry → List ℕ
  first_text memory [] = memory
  first_text memory (_ ∷ _) = []

  -- `mp1_read`: the text that is copied to the user, without the 0 that ends it, the result, and
  -- the new position of the file.
  unfoldable pub mp1_read : (position : ℕ) → (memory : List ℕ) → Module → Option (List ℕ × ℕ × ℕ)
  mp1_read position memory m =
      if ltb 0 position
      then some ([], 0, position)
      else elim (append_lines m.head (first_text memory m.head)) [
        | none ↦ none
        | some text ↦ some (text, length text + 1, position + (length text + 1))
      ]
