-- ===== src/Mp4/Hosts/Results/Output.antt =====
-- The arrays of the two processes at their start, and the file that the client of MP4/client.c
-- writes at its end. An entry is the bit pattern of a `double`, `one` that of 1.111111, `add` is
-- the addition of it, and `text` what `fprintf` writes of an entry, with the line feed.
use cs423_2017sp.Prelude.{
  ℕ, zero, suc, ◌+◌, ◌*◌, ◌/◌, ◌%◌, ◌<◌, ◌≤◌, ◌≡◌, ◌∙◌, refl, ap, List, [], ◌++◌, arith, ◌==◌,
  if◌then◌else◌, Bool-cases, inl, inr,
}
use cs423_2017sp.Mp4.Jobs.{job_size, array_size}
use cs423_2017sp.Mp4.Hosts.{ended}
use cs423_2017sp.Mp4.Hosts.Slices.{raised, slices}
use cs423_2017sp.Mp4.Hosts.System.{System, Reach}
use cs423_2017sp.Mp4.Hosts.Results.{ended-computed}

-- The loop that fills the array, from entry `i` on.
unfoldable pub fill : (one left i : ℕ) → (ℕ → ℕ) → ℕ → ℕ
fill one zero i job_array = job_array
fill one (suc left) i job_array = fill one left (suc i) (λ k. if k == i then one else job_array k)

-- The loop that writes the file, from entry `i` on.
unfoldable pub save : (text : ℕ → List ℕ) → (left i : ℕ) → (ℕ → ℕ) → List ℕ
save text zero i job_array = []
save text (suc left) i job_array = text (job_array i) ++ save text left (suc i) job_array

-- The array, from its slices.
abbrev pub entries : (ℕ → ℕ → ℕ) → ℕ → ℕ
entries array k = array (k / job_size) (k % job_size)

-- What `compute` does to a slice.
abbrev pub added : (ℕ → ℕ) → (ℕ → ℕ) → ℕ → ℕ
added add slice i = raised add 6000 (slice i)

-- So many times the same line.
abbrev pub repeated : ℕ → List ℕ → List ℕ
repeated zero line = []
repeated (suc n) line = line ++ repeated n line

fill-outside :
    (one left i k : ℕ) (job_array : ℕ → ℕ) → k < i → fill one left i job_array k ≡ job_array k
unfolding fill
fill-outside one zero i k job_array h = refl
fill-outside one (suc left) i k job_array h =
    fill-outside one left (suc i) k _ (omega arith) ∙ ground arith

fill-inside :
    (one left i k : ℕ) (job_array : ℕ → ℕ)
    → i ≤ k
    → k < i + left
    → fill one left i job_array k ≡ one
unfolding fill
fill-inside one zero i k job_array h below = absurd (omega arith)
fill-inside one (suc left) i k job_array h below = elim (Bool-cases (k == i)) [
  | inl here ↦ fill-outside one left (suc i) k _ (ground (arith, here)) ∙ rw here refl
  | inr there ↦ fill-inside one left (suc i) k _ (ground (arith, there)) (omega arith)
]

save-repeated :
    (text : ℕ → List ℕ) (left i : ℕ) (job_array : ℕ → ℕ) (line : List ℕ)
    → ((k : ℕ) → k < i + left → text (job_array k) ≡ line)
    → save text left i job_array ≡ repeated left line
unfolding save
save-repeated text zero i job_array line h = refl
save-repeated text (suc left) i job_array line h =
    rw
      (
        save,
        h i (omega arith),
        save-repeated text left (suc i) job_array line (λ k below. h k (omega arith)),
      )
      refl

module _ (add : ℕ → ℕ) (one : ℕ) (text : ℕ → List ℕ) (memory : ℕ → ℕ) {s : System (ℕ → ℕ)}
    (r : Reach (added add) (slices (fill one array_size 0 memory)) s)
    (over : s.client.host.worker ≡ ended) where
  entry-raised :
      (k : ℕ) → k < 0 + array_size → entries s.client.host.job_array k ≡ raised add 6000 one
  entry-raised k below =
      ap (λ slice. slice (k % job_size)) (ended-computed r over (k / job_size) (omega arith))
      ∙ ap (raised add 6000) (
          fill-inside one array_size 0 (k % job_size + job_size * (k / job_size)) memory
            (omega arith) (omega arith))

  -- The result file of the load balancer. Both processes fill their arrays with 1.111111. However
  -- the threads of the client and of the server are interleaved, and whichever jobs they exchange,
  -- when the computing loop of the client is over, as it is when the client saves its array, the
  -- file has 4194304 lines, and each is that of the number which results when 1.111111 is added
  -- 6000 times to 1.111111. As in the model, no thread reads or writes behind the array.
  pub save-raised :
      save text array_size 0 (entries s.client.host.job_array)
      ≡ repeated array_size (text (raised add 6000 one))
  save-raised =
      save-repeated text array_size 0 (entries s.client.host.job_array) (text (raised add 6000 one))
        (λ k below. ap text (entry-raised k below))
