-- ===== src/Mp4/Jobs.antt =====
-- Where the entries of a job stand in the array of MP4/utils.c: `create_message` and `storeLocal`.
-- A job to transfer that is not yet computed goes by its number plus `JOB_NUM`. The array is a
-- function from indices, and `none` is a write out of its bounds.
use cs423_2017sp.Prelude.{
  ℕ, zero, suc, ◌+◌, ◌-◌, ◌*◌, ◌≤◌, ◌<◌, ◌≡◌, ◌∙◌, refl, true, false, ◌&&◌, Option, none, some,
  arith, leb, ltb, if◌then◌else◌, Bool-cases, inl, inr, ◌⊎◌, ap, ◌==◌,
}

abbrev pub job_num : ℕ
job_num = 1024

abbrev pub job_size : ℕ
job_size = 4096

abbrev pub array_size : ℕ
array_size = 1024 * 1024 * 4

-- The offset in the array of the pointer that `create_message` returns, for a job that is not -1.
unfoldable pub create_message : ℕ → ℕ
create_message job_id = job_size * (if ltb job_num job_id then job_id - job_num else job_id)

-- The loop of `storeLocal` on the entries that are left, from entry `i` on.
unfoldable pub store_entries : ℕ → (i job_id : ℕ) → (ℕ → ℕ) → (ℕ → ℕ) → Option (ℕ → ℕ)
store_entries zero i job_id entries job_array = some job_array
store_entries (suc left) i job_id entries job_array =
    let rest =
      store_entries left (suc i) job_id entries
        (λ k. if k == (i + job_size * job_id) then entries i else job_array k) in
    if ltb (i + job_size * job_id) array_size then rest else none

-- Entries are the bit patterns of a `double`.
unfoldable pub store_local : (job_id : ℕ) → (ℕ → ℕ) → (ℕ → ℕ) → Option (ℕ → ℕ)
store_local job_id entries job_array = store_entries job_size 0 job_id entries job_array

store_entries-runs :
    (left i job_id : ℕ) (entries job_array : ℕ → ℕ)
    → i + left ≤ job_size
    → job_id < job_num
    → (after : ℕ → ℕ) × (store_entries left i job_id entries job_array ≡ some after)
      × ((k : ℕ)
          → after k ≡ (
              if leb (i + job_size * job_id) k && ltb k (i + left + job_size * job_id)
              then entries (k - job_size * job_id)
              else job_array k))
unfolding store_entries
store_entries-runs zero i job_id entries job_array le job = (job_array, refl, λ k. ground arith)
store_entries-runs (suc left) i job_id entries job_array le job =
    let (after, run, holds) =
      store_entries-runs left (suc i) job_id entries
        (λ k. if k == (i + job_size * job_id) then entries i else job_array k) (omega arith) job in
    let room : ltb (i + job_size * job_id) array_size ≡ true = ground arith in
    (
      after,
      rw (store_entries, room) run,
      λ k. holds k ∙ (elim (Bool-cases (k == (i + job_size * job_id))) [
        | inl here ↦
            let same : entries (k - job_size * job_id) ≡ entries i =
              ap entries (ground (arith, here)) in
            ground (arith, here, same)
        | inr there ↦ ground (arith, there)
      ]),
    )

-- `storeLocal` of one of the jobs writes no entry out of bounds. It puts the 4096 entries where the
-- pointer of `create_message` for the same job points to, in order, and changes no other entry.
pub store_local-create_message :
    (job_id : ℕ) (entries job_array : ℕ → ℕ)
    → job_id < job_num
    → (after : ℕ → ℕ) × (store_local job_id entries job_array ≡ some after)
      × ((k : ℕ)
          → after k ≡ (
              if leb (create_message job_id) k && ltb k (create_message job_id + job_size)
              then entries (k - create_message job_id)
              else job_array k))
unfolding store_local create_message
store_local-create_message job_id entries job_array job =
    let (after, run, holds) =
      store_entries-runs job_size 0 job_id entries job_array (omega arith) job in
    let plain : ltb job_num job_id ≡ false = ground arith in
    (after, run, λ k. holds k ∙ rw plain (ground arith))

-- For a job to transfer that is not yet computed, `create_message` points to the entries of the job
-- and these end within the array if the job is not job 0. For job 0 it points to the end of the
-- array.
pub create_message-transfer :
    (job : ℕ)
    → job < job_num
    → ((0 < job)
        × (create_message (job_num + job) ≡ create_message job)
        × (create_message (job_num + job) + job_size ≤ array_size))
      ⊎ ((job ≡ 0) × (create_message (job_num + job) ≡ array_size))
unfolding create_message
create_message-transfer zero h = inr (refl, refl)
create_message-transfer (suc n) h = inl (omega arith, ground arith, ground arith)
