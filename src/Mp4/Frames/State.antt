-- ===== src/Mp4/Frames/State.antt =====
-- The 16 bytes of a state in MP4/utils.c, as `send_state` lays them out and `state_handle` takes
-- them apart, both as an array of four numbers of the host, lowest byte first. A `float` and a
-- `double` are their bit patterns, and `to_float` is the conversion of an `int`.
use cs423_2017sp.Prelude.{
  ℕ, ◌+◌, ◌*◌, ◌/◌, ◌%◌, ◌^◌, ◌<◌, ◌≡◌, ◌∙◌, ap, refl, List, [], ◌∷◌, ◌++◌, arith, length, take,
  drop,
}
use cs423_2017sp.Prelude.Int.{ℤ, IsInt32, bits32, signed32, signed32-bits32}
use cs423_2017sp.Mp4.Wire.{bits32-lt}

-- The bytes of 32 bits in memory, and the other way round.
abbrev pub word : ℕ → List ℕ
word w = w % 256 ∷ w / 2 ^ 8 % 256 ∷ w / 2 ^ 16 % 256 ∷ w / 2 ^ 24 % 256 ∷ []

abbrev pub of_word : List ℕ → ℕ
of_word (a ∷ b ∷ c ∷ d ∷ []) = a + b * 2 ^ 8 + c * 2 ^ 16 + d * 2 ^ 24
of_word _ = 0

abbrev pub word_at : ℕ → List ℕ → ℕ
word_at i buffer = of_word (take 4 (drop (4 * i) buffer))

-- `send_state`, the bytes that it sends.
unfoldable pub state_bytes : (num_jobs : ℤ) → (throttle cpu_utilization : ℕ) → List ℕ
state_bytes num_jobs throttle cpu_utilization =
    word (bits32 num_jobs)
    ++ (word throttle ++ (word (cpu_utilization % 2 ^ 32) ++ word (cpu_utilization / 2 ^ 32)))

-- What a host knows of the other one.
pub record Peer : Type 0 where
  pub peer_num_jobs : ℤ
  pub peer_throttle_value : ℕ
  pub peer_cpu_usage : ℕ

-- `state_handle`, what it stores of the bytes.
unfoldable pub peer_of : (to_float : ℤ → ℕ) → List ℕ → Peer
peer_of to_float buffer = record {
  peer_num_jobs = signed32 (word_at 0 buffer);
  peer_throttle_value = to_float (signed32 (word_at 1 buffer));
  peer_cpu_usage = word_at 2 buffer + 2 ^ 32 * word_at 3 buffer;
}

of_word-word : (w : ℕ) → w < 2 ^ 32 → of_word (word w) ≡ w
of_word-word w h = omega arith

pub peer_num_jobs-state_bytes :
    (to_float : ℤ → ℕ) (num_jobs : ℤ) (throttle cpu_utilization : ℕ)
    → IsInt32 num_jobs
    → (peer_of to_float (state_bytes num_jobs throttle cpu_utilization)).peer_num_jobs ≡ num_jobs
unfolding peer_of state_bytes
peer_num_jobs-state_bytes to_float num_jobs throttle cpu_utilization h =
    ap signed32 (of_word-word (bits32 num_jobs) (bits32-lt num_jobs)) ∙ signed32-bits32 num_jobs h

pub length-state_bytes :
    (num_jobs : ℤ) (throttle cpu_utilization : ℕ)
    → length (state_bytes num_jobs throttle cpu_utilization) ≡ 16
unfolding state_bytes
length-state_bytes num_jobs throttle cpu_utilization = refl

halves :
    (w : ℕ) → w < 2 ^ 64 → of_word (word (w % 2 ^ 32)) + 2 ^ 32 * of_word (word (w / 2 ^ 32)) ≡ w
halves w h =
    omega (arith, of_word-word (w % 2 ^ 32) (omega arith), of_word-word (w / 2 ^ 32) (omega arith))

-- The number of jobs and the utilisation that `state_handle` stores are those that were sent. What
-- it stores for the throttle is the conversion to `float` of the bits that were sent, read as an
-- `int`.
pub peer_of-state_bytes :
    (to_float : ℤ → ℕ) (num_jobs : ℤ) (throttle cpu_utilization : ℕ)
    → IsInt32 num_jobs
    → throttle < 2 ^ 32
    → cpu_utilization < 2 ^ 64
    → peer_of to_float (state_bytes num_jobs throttle cpu_utilization) ≡ record {
      peer_num_jobs = num_jobs;
      peer_throttle_value = to_float (signed32 throttle);
      peer_cpu_usage = cpu_utilization;
    }
unfolding peer_of state_bytes
peer_of-state_bytes to_float num_jobs throttle cpu_utilization h t c =
    let jobs = peer_num_jobs-state_bytes to_float num_jobs throttle cpu_utilization h in
    let usage = halves cpu_utilization c in rw (peer_of, jobs, of_word-word throttle t, usage) refl
