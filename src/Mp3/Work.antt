-- ===== src/Mp3/Work.antt =====
-- `main` of MP3/work.c, the workload that the profiler samples. `rand` is the sequence of the
-- numbers that the calls of `rand` return, and `malloc` what its calls return; `none` is an `int`
-- that overflows, a division by 0, or an index out of `buffer`.
pub mod Accesses
pub mod Blocks
pub mod Safety
use cs423_2017sp.Prelude.{
  ℕ, zero, suc, ◌+◌, ◌-◌, ◌*◌, ◌/◌, ◌%◌, ◌^◌, Bool, true, false, ◌&&◌, ◌||◌, Option, none, some,
  List, [], ◌∷◌, ◌++◌, ◌==◌, leb, ltb, if◌then◌else◌,
}
use cs423_2017sp.Prelude.Int.{ℤ, pos, negsuc, pos_part, neg_part, sub_ℕ, ◌+ℤ◌, ltb_ℤ}
use cs423_2017sp.Prelude.Memory.{Ptr, null}

-- The number without its sign.
abbrev pub magnitude : ℤ → ℕ
magnitude (pos n) = n
magnitude (negsuc n) = suc n

-- An `int` result that is not negative.
abbrev pub int : ℕ → Option ℕ
int n = if ltb n (2 ^ 31) then some n else none

-- `rand_access` on what `rand` returned: the block and the place in it that it writes.
unfoldable pub rand_access : (msize : ℕ) → ℤ → Option (ℕ × ℕ)
rand_access msize r = elim (int (msize * 1024 * 1024)) [
  | none ↦ none
  | some range ↦
      if range == 0
      then none
      else some (
        magnitude r % range / 1024 / 1024,
        magnitude r % range - magnitude r % range / 1024 / 1024 * 1024 * 1024,
      )
]

-- The remainder of C, with the sign of the dividend.
abbrev pub rem : ℤ → ℕ → ℤ
rem (pos n) m = pos (n % m)
rem (negsuc n) m = sub_ℕ 0 (suc n % m)

-- An `int` result of any sign.
abbrev pub signed_int : ℤ → Option ℤ
signed_int a = if ltb (pos_part a) (2 ^ 31) && leb (neg_part a) (2 ^ 31) then some a else none

-- `local_access`; the second call of `rand` is made only if the first is not negative.
unfoldable pub local_access : ℤ → ℤ → ℤ → Option ℤ
local_access addr first second =
    signed_int (if ltb_ℤ first (pos 0) then addr +ℤ pos 1 else addr +ℤ rem second 300)

-- The variables of `main` and the static ones: the next call of `rand`, `addr`, and the places that
-- were written, the last one first.
pub record Work : Type 0 where
  pub next : ℕ
  pub addr : ℤ
  pub touched : List (ℕ × ℕ)

module _ (rand : ℕ → ℤ) (msize : ℕ) where
  unfoldable pub touch : Work → Option Work
  touch w = elim (rand_access msize (rand w.next)) [
    | none ↦ none
    | some place ↦ some (record w { next = suc w.next; touched = place ∷ w.touched })
  ]

  -- An access of the loop with a temporal locality.
  unfoldable pub temporal_access : Work → Option Work
  unfolding touch
  temporal_access w =
      if ltb (magnitude (rand w.next) % 10) 2
      then touch (record w { next = suc w.next })
      else elim (local_access w.addr (rand (suc w.next)) (rand (suc (suc w.next)))) [
        | none ↦ none
        | some addr ↦ some (record w {
          next = if ltb_ℤ (rand (suc w.next)) (pos 0) then w.next + 2 else w.next + 3;
          addr = addr;
        })
      ]

  unfoldable pub accesses : ℕ → (locality : Bool) → Work → Option Work
  unfolding touch temporal_access
  accesses zero locality w = some w
  accesses (suc naccess) locality w = elim (if locality then temporal_access w else touch w) [
    | none ↦ none
    | some w' ↦ accesses naccess locality w'
  ]

  unfoldable pub iterations : ℕ → (naccess : ℕ) → (locality : Bool) → Work → Option Work
  unfolding accesses
  iterations zero naccess locality w = some w
  iterations (suc k) naccess locality w = elim (accesses naccess locality w) [
    | none ↦ none
    | some w' ↦ iterations k naccess locality w'
  ]

-- The loop that frees the blocks before the `i`-th, backwards, and the one that frees all.
abbrev pub free_back : ℕ → (ℕ → Ptr) → List Ptr
free_back zero buffer = []
free_back (suc i) buffer = buffer i ∷ free_back i buffer

abbrev pub free_all : (left i : ℕ) → (ℕ → Ptr) → List Ptr
free_all zero i buffer = []
free_all (suc left) i buffer = buffer i ∷ free_all left (suc i) buffer

-- The loop that allocates the blocks that are left, from the `i`-th on: `buffer`, and the index at
-- which it ran out of memory.
unfoldable pub allocate : (left i : ℕ) → (malloc buffer : ℕ → Ptr) → Option ((ℕ → Ptr) × Option ℕ)
allocate zero i malloc buffer = some (buffer, none)
allocate (suc left) i malloc buffer =
    let buffer' : ℕ → Ptr = λ j. if j == i then malloc i else buffer j in
    let rest = allocate left (suc i) malloc buffer' in
    if ltb i 1024 then (if malloc i == null then some (buffer', some i) else rest) else none

-- How `main` ends: without registering, out of memory, or after its accesses.
pub data Exit : Type 0 where
  refused : Exit
  out_of_memory : (freed : List Ptr) → Exit
  finished : (touched : List (ℕ × ℕ)) → (freed : List Ptr) → Exit

-- `N_ITERATION`
abbrev pub n_iteration : ℕ
n_iteration = 20

unfoldable pub work :
    (rand : ℕ → ℤ) → (malloc : ℕ → Ptr) → (msize naccess : ℤ) → (locality : Bool) → Option Exit
work rand malloc (negsuc _) naccess locality = some refused
work rand malloc (pos msize) (negsuc _) locality = some refused
work rand malloc (pos msize) (pos naccess) locality =
    if ltb 1024 msize || ltb msize 1 || ltb naccess 1
    then some refused
    else elim (allocate msize 0 malloc (λ _. null)) [
      | none ↦ none
      | some (buffer, some i) ↦ some (out_of_memory (free_back i buffer))
      | some (buffer, none) ↦
          elim (iterations rand msize n_iteration naccess locality
            (record { next = 0; addr = pos 0; touched = [] })) [
              | none ↦ none
              | some w ↦ some (finished w.touched (free_all msize 0 buffer))
            ]
    ]
