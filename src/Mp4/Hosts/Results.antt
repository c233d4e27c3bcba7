-- ===== src/Mp4/Hosts/Results.antt =====
-- What the client's array holds in any order of the threads' steps, and how often each job is
-- computed.
pub mod Counts
pub mod Rounds
pub mod Finishes
pub mod Starves
pub mod Untold
pub mod Output
use mathlib.Core.Path.{subst}
use cs423_2017sp.Prelude.{
  ℕ, suc, ◌+◌, ◌≤◌, ◌<◌, ◌≡◌, ◌∙◌, sym, refl, Bool, true, false, List, [], ◌∷◌, arith, ltb, ◌==◌,
  length, if◌then◌else◌,
}
use cs423_2017sp.Mp4.Jobs.{job_num}
use cs423_2017sp.Mp4.Hosts.{ended}
use cs423_2017sp.Mp4.Hosts.System.{System, Reach}
use cs423_2017sp.Mp4.Hosts.View.{count_done, places, view}
use cs423_2017sp.Mp4.Hosts.Steps.Invariant.{Reach-Inv}
use cs423_2017sp.Mp4.Hosts.Results.Counts.{Reach-Counts, all_done}

module _ {A : Type 0} {compute : A → A} {array : ℕ → A} {s : System A}
    (r : Reach compute array s) where
  -- In each state that the client and the server reach from their start, whatever the order of the
  -- threads' steps and whoever gives jobs away, as long as no thread reads or writes behind the
  -- array, each of the 1024 jobs is in exactly one place: in one of the four queues, with one of
  -- the two computing threads, on the connection one way or the other, or among the finished ones.
  -- No other job is anywhere.
  pub one_place : (k : ℕ) → places (view s) k ≡ (if ltb k job_num then 1 else 0)
  one_place k = (Reach-Inv r).placed k

  -- In each state that the client and the server reach from their start with the same array, as
  -- long as no thread reads or writes behind it, the slice of a job in the client's array is
  -- computed once when the job is among the finished ones, and is as it was at the start when it is
  -- not.
  pub slice_of :
      (k : ℕ)
      → s.client.host.job_array k
        ≡ (if count_done k s.client.finished == 0 then array k else compute (array k))
  slice_of k = (Reach-Inv r).results k

  -- When the client's computing loop is over, which it is before the client saves its array, each
  -- of the 1024 slices of the array has been computed exactly once. This holds in every state that
  -- the client and the server reach from their start with the same array, as long as no thread
  -- reads or writes behind it.
  pub ended-computed :
      s.client.host.worker ≡ ended
      → (k : ℕ) → k < job_num
      → s.client.host.job_array k ≡ compute (array k)
  ended-computed over k below =
      let counts = Reach-Counts r in
      let done =
        all_done s.client.finished job_num (λ j. ground (arith, one_place j))
          (omega (arith, counts.counted, counts.complete over)) k below in
      slice_of k ∙ ground (arith, done)
