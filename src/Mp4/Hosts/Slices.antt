-- ===== src/Mp4/Hosts/Slices.antt =====
-- `compute` and `storeLocal` of MP4/utils.c on the entries of `job_array`, and the slices that the
-- hosts keep. An entry is the bit pattern of a `double`, `add` is the addition of 1.111111 to one,
-- and `none` is an index out of bounds.
use cs423_2017sp.Prelude.{
  ℕ, zero, suc, ◌+◌, ◌-◌, ◌*◌, ◌≤◌, ◌<◌, ◌≡◌, ◌∙◌, refl, true, ◌&&◌, Option, none, some, arith, leb,
  ltb, if◌then◌else◌, Bool-cases, inl, inr, ap, ◌==◌,
}
use cs423_2017sp.Mp4.Jobs.{
  job_num, job_size, array_size, create_message, store_local, store_local-create_message,
}
use cs423_2017sp.Mp4.Hosts.{set_slice}

module _ (add : ℕ → ℕ) where
  -- The inner loop of `compute`, on the rounds that are left.
  unfoldable pub add_up : (left i : ℕ) → (ℕ → ℕ) → Option (ℕ → ℕ)
  add_up zero i vec = some vec
  add_up (suc left) i vec =
      let rest = add_up left i (λ k. if k == i then add (vec i) else vec k) in
      if ltb i array_size then rest else none

  -- The outer loop, on the entries that are left, with so many rounds for each.
  unfoldable pub compute_entries : (rounds left i : ℕ) → (ℕ → ℕ) → Option (ℕ → ℕ)
  compute_entries rounds zero i vec = some vec
  compute_entries rounds (suc left) i vec = elim (add_up rounds i vec) [
    | none ↦ none
    | some vec' ↦ compute_entries rounds left (suc i) vec'
  ]

  unfoldable pub compute : (job_id : ℕ) → (ℕ → ℕ) → Option (ℕ → ℕ)
  compute job_id vec =
      compute_entries 6000 ((job_id + 1) * job_size - job_id * job_size) (job_id * job_size) vec

  -- An entry to which 1.111111 was added `n` times.
  unfoldable pub raised : ℕ → ℕ → ℕ
  raised zero x = x
  raised (suc n) x = raised n (add x)

  add_up-raised :
      (left i : ℕ) (vec : ℕ → ℕ)
      → i < array_size
      → (after : ℕ → ℕ) × (add_up left i vec ≡ some after)
        × ((k : ℕ) → after k ≡ (if k == i then raised left (vec i) else vec k))
  unfolding add_up raised
  add_up-raised zero i vec inside = (
    vec,
    refl,
    λ k. elim (Bool-cases (k == i)) [
      | inl here ↦ let same : k ≡ i = ground (arith, here) in rw here (ap vec same)
      | inr there ↦ rw there refl
    ],
  )
  add_up-raised (suc left) i vec inside =
      let room : ltb i array_size ≡ true = ground arith in
      let own : (i == i) ≡ true = ground arith in
      let (after, run, holds) =
        add_up-raised left i (λ k. if k == i then add (vec i) else vec k) inside in
      (
        after,
        rw (add_up, room) run,
        λ k. holds k ∙ (elim (Bool-cases (k == i)) [
          | inl here ↦ rw here (ap (raised left) (rw own refl))
          | inr there ↦ rw there refl
        ]),
      )

  compute_entries-raised :
      (rounds left i : ℕ) (vec : ℕ → ℕ)
      → i + left ≤ array_size
      → (after : ℕ → ℕ) × (compute_entries rounds left i vec ≡ some after)
        × ((k : ℕ)
            → after k ≡ (if leb i k && ltb k (i + left) then raised rounds (vec k) else vec k))
  unfolding compute_entries
  compute_entries-raised rounds zero i vec fits = (vec, refl, λ k. ground arith)
  compute_entries-raised rounds (suc left) i vec fits =
      let (vec', once, holds) = add_up-raised rounds i vec (omega arith) in
      let (after, run, rest) = compute_entries-raised rounds left (suc i) vec' (omega arith) in
      (
        after,
        rw (compute_entries, once) run,
        λ k. rest k ∙ (elim (Bool-cases (k == i)) [
          | inl here ↦
              let same : raised rounds (vec i) ≡ raised rounds (vec k) =
                ap (λ j. raised rounds (vec j)) (ground (arith, here)) in
              ground (arith, here, holds k, same)
          | inr there ↦
              let kept : vec' k ≡ vec k = ground (arith, there, holds k) in
              let same : raised rounds (vec' k) ≡ raised rounds (vec k) = ap (raised rounds) kept in
              ground (arith, there, kept, same)
        ]),
      )

-- The slices of an array, an entry of one by its place in it.
abbrev pub slices : (ℕ → ℕ) → ℕ → ℕ → ℕ
slices job_array j i = job_array (i + job_size * j)

-- The bounds of a job's entries hold for those of its slice.
in_slice :
    (low size p j i : ℕ)
    → low ≡ job_size * p
    → size ≡ job_size
    → i < job_size
    → (leb low (i + job_size * j) && ltb (i + job_size * j) (low + size)) ≡ (j == p)
in_slice low size p j i start whole inside = ground arith

-- On the slices of the array, `compute` of one of the jobs is what the computing threads of the
-- model do: the slice of the job has 1.111111 added 6000 times to each of its entries, and all
-- others stay as they were. No index is out of bounds.
compute-set_slice :
    (add : ℕ → ℕ) (job_id : ℕ) (vec : ℕ → ℕ)
    → job_id < job_num
    → (after : ℕ → ℕ) × (compute add job_id vec ≡ some after)
      × ((j i : ℕ)
          → i < job_size
          → slices after j i
            ≡ set_slice (slices vec) job_id (λ k. raised add 6000 (slices vec job_id k)) j i)
unfolding compute
compute-set_slice add job_id vec job =
    let size : (job_id + 1) * job_size - job_id * job_size ≡ job_size = omega arith in
    let (after, run, holds) =
      compute_entries-raised add 6000 ((job_id + 1) * job_size - job_id * job_size)
        (job_id * job_size) vec (omega (arith, size)) in
    (
      after,
      run,
      λ j i inside. holds (i + job_size * j) ∙ (elim (Bool-cases (j == job_id)) [
        | inl here ↦
            let place = in_slice (job_id * job_size) _ job_id j i (omega arith) size inside in
            let same : vec (i + job_size * j) ≡ vec (i + job_size * job_id) =
              ap vec (ground (arith, here)) in
            rw (place, here, same) refl
        | inr there ↦
            rw (in_slice (job_id * job_size) _ job_id j i (omega arith) size inside, there) refl
      ]),
    )

-- `storeLocal` of one of the jobs puts the received slice in the place of the job's, and no index
-- is out of bounds.
store_local-set_slice :
    (job_id : ℕ) (entries job_array : ℕ → ℕ)
    → job_id < job_num
    → (after : ℕ → ℕ) × (store_local job_id entries job_array ≡ some after)
      × ((j i : ℕ)
          → i < job_size
          → slices after j i ≡ set_slice (slices job_array) job_id entries j i)
unfolding create_message
store_local-set_slice job_id entries job_array job =
    let (after, run, holds) = store_local-create_message job_id entries job_array job in
    let start : create_message job_id ≡ job_size * job_id = ground (arith, job) in
    (
      after,
      run,
      λ j i inside. holds (i + job_size * j) ∙ (elim (Bool-cases (j == job_id)) [
        | inl here ↦
            let place = in_slice (create_message job_id) job_size job_id j i start refl inside in
            let same : entries (i + job_size * j - create_message job_id) ≡ entries i =
              ap entries (ground (arith, here, start)) in
            rw (place, here, same) refl
        | inr there ↦
            rw (in_slice (create_message job_id) job_size job_id j i start refl inside, there) refl
      ]),
    )

-- A job of the 1024 that arrives with its entries and is then computed: `storeLocal` and `compute`
-- use no index out of bounds, and on the slices of the array they do what the model's hosts do. The
-- slice of the job becomes the received one with 1.111111 added 6000 times to each entry, and all
-- other slices stay as they were.
pub compute-store_local :
    (add : ℕ → ℕ) (job_id : ℕ) (entries job_array : ℕ → ℕ)
    → job_id < job_num
    → (stored after : ℕ → ℕ) × (store_local job_id entries job_array ≡ some stored)
      × (compute add job_id stored ≡ some after)
      × ((j i : ℕ)
          → i < job_size
          → slices after j i
            ≡ set_slice (slices job_array) job_id (λ k. raised add 6000 (entries k)) j i)
compute-store_local add job_id entries job_array job =
    let (stored, stores, old) = store_local-set_slice job_id entries job_array job in
    let (after, computes, new) = compute-set_slice add job_id stored job in
    (
      stored,
      after,
      stores,
      computes,
      λ j i inside. new j i inside ∙ (elim (Bool-cases (j == job_id)) [
        | inl here ↦
            let own : (job_id == job_id) ≡ true = ground arith in
            let received : slices stored job_id i ≡ entries i = old job_id i inside ∙ rw own refl in
            rw (here, received) refl
        | inr there ↦
            let kept : slices stored j i ≡ slices job_array j i = old j i inside ∙ rw there refl in
            rw (there, kept) refl
      ]),
    )
