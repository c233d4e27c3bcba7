-- ===== src/Mp1/Userapp.antt =====
-- The application of MP1/userapp.c with the module MP1/mp1.c. `decimal` is what `fprintf` and
-- `sprintf` write for a number, and `kstrtol` the number that the kernel's function stores.
pub mod Listed
use cs423_2017sp.Prelude.{
  ℕ, ◌+◌, ◌-◌, Option, none, some, List, [], ◌∷◌, ◌++◌, ◌==◌, ltb, set, if◌then◌else◌,
}
use cs423_2017sp.Prelude.Int.{ℤ}
use cs423_2017sp.Mp1.Registry.{Times, Module, mp1_write, timer_callback, bottom_fn, mp1_read}

-- What happens to the module: a write to its file, its timer, and its bottom half.
pub data Event : Type 0 where
  written : (parsed : Option ℤ) → (stale : ℤ) → Event
  timed : (jiffies period : ℕ) → Event
  updated : Times → Event

unfoldable pub handle : Event → Module → Module
handle (written parsed stale) m = mp1_write parsed stale m
handle (timed jiffies period) m = timer_callback jiffies period m
handle (updated times) m = bottom_fn times m

unfoldable pub happen : List Event → Module → Module
happen [] m = m
happen (e ∷ es) m = happen es (handle e m)

-- What `printf` prints of a buffer for `%s`.
abbrev pub up_to_0 : List ℕ → List ℕ
up_to_0 [] = []
up_to_0 (c ∷ cs) = if c == 0 then [] else c ∷ up_to_0 cs

module _ (decimal : ℕ → List ℕ) (jiffies_to_msecs : ℕ → ℕ) where
  -- `call_kernel`: the text that it prints. `none` writes out of a buffer of 2048 bytes, the
  -- kernel's or its own.
  unfoldable pub call_kernel : (memory : List ℕ) → Module → Option (List ℕ)
  call_kernel memory m = elim (mp1_read decimal jiffies_to_msecs 0 memory m) [
    | none ↦ none
    | some (text, read_bytes, position) ↦
        if read_bytes == 0
        then none
        else if ltb (read_bytes - 1) 2048
        then some (up_to_0 (set (text ++ 0 ∷ []) (read_bytes - 1) 0))
        else none
  ]

  -- `main`, with what happens to the module while it computes. `stale` is what the new structure
  -- of the module held, and `memory` its buffer.
  unfoldable pub main :
      (kstrtol : List ℕ → Option ℤ)
      → (mypid : ℕ) → (stale : ℤ) → (meanwhile : List Event) → (memory : List ℕ) → Module
      → Option (List ℕ)
  main kstrtol mypid stale meanwhile memory m =
      call_kernel memory (happen meanwhile (mp1_write (kstrtol (decimal mypid)) stale m))
