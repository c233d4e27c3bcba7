-- ===== src/Mp3/Work/Safety.antt =====
-- How the workload of MP3/work.c ends.
use mathlib.Core.List.{reverse}
use cs423_2017sp.Prelude.{
  ℕ, ◌*◌, ◌^◌, ◌≤◌, ◌<◌, ◌≡◌, ◌≢◌, refl, Bool, true, false, ◌||◌, Option, none, some, [], arith,
  ltb, All, Bool-cases, inl, inr,
}
use cs423_2017sp.Prelude.Int.{ℤ, pos, negsuc, pos_part, ltb_ℤ}
use cs423_2017sp.Prelude.Memory.{Ptr, null}
use cs423_2017sp.Mp3.Work.{
  free_back, free_all, allocate, Exit, refused, out_of_memory, finished, n_iteration, work,
}
use cs423_2017sp.Mp3.Work.Accesses.{Inside, iterations-Safe}
use cs423_2017sp.Mp3.Work.Blocks.{
  blocks, Result, allocate-Result, free_back-blocks, free_all-blocks,
}

-- What a run of `main` has done when it ends: it has asked for no memory because of its arguments;
-- or the `i`-th block is the first that it did not get, and the earlier ones are freed, the last
-- one first; or it has got its blocks, has written inside them only, and has freed each of them in
-- their order.
unfoldable pub Ended : (malloc : ℕ → Ptr) → (msize naccess : ℤ) → Exit → Type 0
Ended malloc msize naccess refused =
    ltb_ℤ (pos 1024) msize || ltb_ℤ msize (pos 1) || ltb_ℤ naccess (pos 1) ≡ true
Ended malloc msize naccess (out_of_memory freed) =
    (i : ℕ) × (i < pos_part msize)
    × (malloc i ≡ null)
    × ((j : ℕ) → j < i → malloc j ≢ null)
    × (freed ≡ reverse (blocks malloc i))
Ended malloc msize naccess (finished touched freed) =
    ((j : ℕ) → j < pos_part msize → malloc j ≢ null)
    × All (Inside (pos_part msize)) touched
    × (freed ≡ blocks malloc (pos_part msize))

module _ (rand : ℕ → ℤ) (malloc : ℕ → Ptr) (msize naccess : ℕ) (locality : Bool) where
  after_allocate :
      (r : (ℕ → Ptr) × Option ℕ)
      → allocate msize 0 malloc (λ _. null) ≡ some r
      → Result malloc msize r
      → (ltb 1024 msize || ltb msize 1 || ltb naccess 1) ≡ false
      → 299 * (20 * naccess) < 2 ^ 31
      → (exit : Exit) × (work rand malloc (pos msize) (pos naccess) locality ≡ some exit)
        × Ended malloc (pos msize) (pos naccess) exit
  unfolding work Result Ended
  after_allocate (buffer, some i) run result args room = (
    out_of_memory (free_back i buffer),
    rw (work, args, run) refl,
    (
      i,
      result.0,
      result.1,
      (λ j below. (result.2 j below).1),
      free_back-blocks malloc i buffer result.2,
    ),
  )
  after_allocate (buffer, none) run result args room =
      let (w, loops, inside) =
        iterations-Safe rand msize (ground arith) (ground arith) n_iteration naccess 0 locality
          (record { next = 0; addr = pos 0; touched = [] }) (omega arith)
          (tt, (omega arith, omega arith)) in
      (
        finished w.touched (free_all msize 0 buffer),
        rw (work, args, run, loops) refl,
        ((λ j below. (result j below).1), inside, free_all-blocks malloc msize buffer result),
      )

-- For every sequence of random numbers and every behaviour of `malloc`, the workload with fewer
-- than 359111 accesses in an iteration comes to an end: it refuses its arguments only if `msize` is
-- not between 1 and 1024 or `naccess` is below 1; out of memory, it has freed the blocks that it
-- had, from the last to the first, and no other; else every place that it has written is in one of
-- its `msize` blocks of 1 MB, and it has freed all of them, each one time.
pub work-Ended :
    (rand : ℕ → ℤ) (malloc : ℕ → Ptr) (msize naccess : ℤ) (locality : Bool)
    → pos_part naccess < 359111
    → (exit : Exit) × (work rand malloc msize naccess locality ≡ some exit)
      × Ended malloc msize naccess exit
unfolding work Ended
work-Ended rand malloc (negsuc m) naccess locality room = (refused, refl, ground arith)
work-Ended rand malloc (pos m) (negsuc n) locality room = (refused, refl, ground arith)
work-Ended rand malloc (pos msize) (pos naccess) locality room =
    elim (Bool-cases (ltb 1024 msize || ltb msize 1 || ltb naccess 1)) [
      | inl bad ↦ (refused, rw (work, bad) refl, ground arith)
      | inr good ↦
          let fits : msize ≤ 1024 = ground (arith, good) in
          let (r, run, result) =
            allocate-Result malloc msize msize 0 (λ _. null) (omega arith) fits
              (λ j below. absurd (omega (arith, below))) in
          after_allocate rand malloc msize naccess locality r run result good (omega arith)
    ]
