-- ===== src/Mp3/Work/Accesses.antt =====
-- The memory accesses of the workload of MP3/work.c: where they are, and how far `addr` moves.
use cs423_2017sp.Prelude.{
  ℕ, zero, suc, ◌+◌, ◌-◌, ◌*◌, ◌/◌, ◌%◌, ◌^◌, ◌≤◌, ◌<◌, ◌≡◌, refl, Bool, true, false, some, ◌∷◌,
  arith, ◌==◌, leb, ltb, All, Bool-cases, inl, inr, if◌then◌else◌,
}
use cs423_2017sp.Prelude.Int.{ℤ, pos, negsuc, pos_part, neg_part, ◌+ℤ◌, ltb_ℤ}
use cs423_2017sp.Mp3.Work.{
  magnitude, rand_access, rem, signed_int, local_access, Work, touch, temporal_access, accesses,
  iterations,
}

-- A place in one of the blocks of 1 MB.
abbrev pub Inside : ℕ → ℕ × ℕ → Type 0
Inside msize place = (place.0 < msize) × (place.1 < 1024 * 1024)

rand_access-Inside :
    (msize : ℕ) (r : ℤ)
    → 0 < msize
    → msize ≤ 1024
    → (place : ℕ × ℕ) × (rand_access msize r ≡ some place) × Inside msize place
unfolding rand_access
rand_access-Inside msize r some_block few =
    let range : ℕ = msize * 1024 * 1024 in
    let target : ℕ = magnitude r % range in
    let no_overflow : ltb range (2 ^ 31) ≡ true = ground arith in
    let not_zero : (range == 0) ≡ false = ground arith in
    let below : target < range = omega arith in
    (
      (target / 1024 / 1024, target - target / 1024 / 1024 * 1024 * 1024),
      rw (rand_access, no_overflow, not_zero) refl,
      (omega (arith, below), omega arith),
    )

-- An address that has not moved further than `n`.
abbrev Within : ℕ → ℤ → Type 0
Within n a = (pos_part a ≤ n) × (neg_part a ≤ n)

signed_int-fits : (b : ℤ) → Within (2 ^ 31 - 1) b → signed_int b ≡ some b
signed_int-fits b within =
    let up : ltb (pos_part b) (2 ^ 31) ≡ true = ground arith in
    let down : leb (neg_part b) (2 ^ 31) ≡ true = ground arith in rw (up, down) refl

rem-Within : (a : ℤ) (m : ℕ) → 0 < m → Within (m - 1) (rem a m)
rem-Within (pos n) m some_m = (omega arith, omega arith)
rem-Within (negsuc n) m some_m = ground arith

add-Within : (n m : ℕ) (a b : ℤ) → Within n a → Within m b → Within (n + m) (a +ℤ b)
unfolding ◌+ℤ◌
add-Within n m a b first second = ground arith

moved : ℤ → ℤ → ℤ → ℤ
moved a first second = if ltb_ℤ first (pos 0) then a +ℤ pos 1 else a +ℤ rem second 300

moved-Within : (n : ℕ) (a first second : ℤ) → Within n a → Within (n + 299) (moved a first second)
unfolding moved
moved-Within n a first second within =
    let step = add-Within n 1 a (pos 1) within (omega arith, omega arith) in
    let jump = add-Within n 299 a (rem second 300) within (rem-Within second 300 (omega arith)) in
    elim (Bool-cases (ltb_ℤ first (pos 0))) [
      | inl back ↦ rw back (omega (arith, step.0), omega (arith, step.1))
      | inr on ↦ rw on jump
    ]

local_access-Within :
    (n : ℕ) (a first second : ℤ)
    → Within n a
    → n + 299 < 2 ^ 31
    → (b : ℤ) × (local_access a first second ≡ some b) × Within (n + 299) b
unfolding local_access moved
local_access-Within n a first second within room =
    let near = moved-Within n a first second within in
    (
      moved a first second,
      signed_int-fits (moved a first second) (omega (arith, near.0), omega (arith, near.1)),
      near,
    )

module _ (rand : ℕ → ℤ) (msize : ℕ) (some_block : 0 < msize) (few : msize ≤ 1024) where
  -- Every access so far was inside the blocks, and `addr` has not moved further than `n`.
  abbrev Safe : ℕ → Work → Type 0
  Safe n w = All (Inside msize) w.touched × Within n w.addr

  touch-Safe :
      (n : ℕ) (w : Work) → Safe n w → (w' : Work) × (touch rand msize w ≡ some w') × Safe n w'
  unfolding touch
  touch-Safe n w safe =
      let (place, run, inside) = rand_access-Inside msize (rand w.next) some_block few in
      (
        record w { next = suc w.next; touched = place ∷ w.touched },
        rw (touch, run) refl,
        ((inside, safe.0), safe.1),
      )

  temporal_access-Safe :
      (n : ℕ) (w : Work)
      → n + 299 < 2 ^ 31
      → Safe n w
      → (w' : Work) × (temporal_access rand msize w ≡ some w') × Safe (n + 299) w'
  unfolding temporal_access
  temporal_access-Safe n w room safe = elim (Bool-cases (ltb (magnitude (rand w.next) % 10) 2)) [
    | inl random ↦
        let (w', run, safe') = touch-Safe n (record w { next = suc w.next }) safe in
        (
          w',
          rw (temporal_access, random) run,
          (safe'.0, (omega (arith, safe'.1), omega (arith, safe'.1))),
        )
    | inr near ↦
        let (b, run, within) =
          local_access-Within n w.addr (rand (suc w.next)) (rand (suc (suc w.next))) safe.1 room in
        (
          record w {
            next = if ltb_ℤ (rand (suc w.next)) (pos 0) then w.next + 2 else w.next + 3;
            addr = b;
          },
          rw (temporal_access, near, run) refl,
          (safe.0, within),
        )
  ]

  one_access-Safe :
      (n : ℕ) (locality : Bool) (w : Work)
      → n + 299 < 2 ^ 31
      → Safe n w
      → (w' : Work) × ((if locality then temporal_access rand msize w else touch rand msize w)
          ≡ some w')
        × Safe (n + 299) w'
  one_access-Safe n true w room safe = temporal_access-Safe n w room safe
  one_access-Safe n false w room safe =
      let (w', run, safe') = touch-Safe n w safe in
      (w', run, (safe'.0, (omega (arith, safe'.1), omega (arith, safe'.1))))

  accesses-Safe :
      (naccess n : ℕ) (locality : Bool) (w : Work)
      → n + 299 * naccess < 2 ^ 31
      → Safe n w
      → (w' : Work) × (accesses rand msize naccess locality w ≡ some w')
        × Safe (n + 299 * naccess) w'
  unfolding accesses
  accesses-Safe zero n locality w room safe =
      (w, refl, (safe.0, (omega (arith, safe.1), omega (arith, safe.1))))
  accesses-Safe (suc naccess) n locality w room safe =
      let (w₁, run, safe₁) = one_access-Safe n locality w (omega arith) safe in
      let (w₂, rest, safe₂) = accesses-Safe naccess (n + 299) locality w₁ (omega arith) safe₁ in
      (w₂, rw (accesses, run) rest, (safe₂.0, (omega (arith, safe₂.1), omega (arith, safe₂.1))))

  pub iterations-Safe :
      (k naccess n : ℕ) (locality : Bool) (w : Work)
      → n + 299 * (k * naccess) < 2 ^ 31
      → Safe n w
      → (w' : Work) × (iterations rand msize k naccess locality w ≡ some w')
        × All (Inside msize) w'.touched
  unfolding iterations
  iterations-Safe zero naccess n locality w room safe = (w, refl, safe.0)
  iterations-Safe (suc k) naccess n locality w room safe =
      let size : 299 * (suc k * naccess) ≡ 299 * naccess + 299 * (k * naccess) = omega arith in
      let (w₁, run, safe₁) = accesses-Safe naccess n locality w (omega (arith, size)) safe in
      let (w₂, rest, inside) =
        iterations-Safe k naccess (n + 299 * naccess) locality w₁ (omega (arith, size)) safe₁ in
      (w₂, rw (iterations, run) rest, inside)
