-- ===== src/Mp4/Frames/Stream.antt =====
-- All messages of one side of MP4 on the connection, and the receiving loop on them: what the model
-- of the two hosts takes as a sequence of whole messages. `throttle i` and `cpu_utilization i` are
-- the sender's values when it sends the `i`-th message, and `to_float` is the conversion of an
-- `int` in `state_handle`.
use cs423_2017sp.Prelude.{
  ℕ, zero, suc, ◌^◌, ◌<◌, ◌≡◌, refl, ap, Bool, false, Option, none, some, List, [], ◌∷◌, ◌++◌,
  length, append_assoc, All,
}
use cs423_2017sp.Prelude.Int.{ℤ, pos, negsuc, IsInt32}
use cs423_2017sp.Mp4.Frames.{
  Frame, part, state_frame, rebalance_frame, bad, Answers, slice_bytes, send_frame, read_frame,
}
use cs423_2017sp.Mp4.Frames.State.{
  state_bytes, peer_of, peer_num_jobs-state_bytes, length-state_bytes,
}
use cs423_2017sp.Mp4.Frames.RoundTrip.{Whole, Ready, frame_arrives}
use cs423_2017sp.Mp4.Hosts.{Message, job, stop, state, rebalance}

abbrev pub frame_of : (throttle cpu_utilization : ℕ) → Message (List ℕ) → Frame
frame_of throttle cpu_utilization (job id slice) = part (pos id) slice
frame_of throttle cpu_utilization stop = part (negsuc 0) []
frame_of throttle cpu_utilization (state jobs) =
    state_frame (state_bytes jobs throttle cpu_utilization)
frame_of throttle cpu_utilization rebalance = rebalance_frame

module _ (throttle cpu_utilization : ℕ → ℕ) where
  -- One message after the other, the `i`-th first; the kernel answers each as in `ks`.
  unfoldable pub send_all : (ks : ℕ → Answers) → (i : ℕ) → List (Message (List ℕ)) → Option (List ℕ)
  send_all ks i [] = some []
  send_all ks i (m ∷ ms) = elim (send_frame (ks i) (frame_of (throttle i) (cpu_utilization i) m)) [
    | none ↦ none
    | some bytes ↦ elim (send_all ks (suc i) ms) [
      | none ↦ none
      | some others ↦ some (bytes ++ others)
    ]
  ]

module _ (to_float : ℤ → ℕ) where
  abbrev pub message_of : Frame → Option (Message (List ℕ))
  message_of (part (pos id) slice) = some (job id slice)
  message_of (part (negsuc _) _) = some stop
  message_of (state_frame bytes) = some (state (peer_of to_float bytes).peer_num_jobs)
  message_of rebalance_frame = some rebalance
  message_of bad = none

  -- So many rounds of the receiving loop; `none` also stands for a message of no known type.
  unfoldable pub receive_all :
      (always : Bool)
      → (ks : ℕ → Answers) → (i rounds : ℕ) → List ℕ
      → Option (List (Message (List ℕ)) × List ℕ)
  receive_all always ks i zero input = some ([], input)
  receive_all always ks i (suc rounds) input = elim (read_frame always (ks i) input) [
    | none ↦ none
    | some (f, rest) ↦ elim (message_of f) [
      | none ↦ none
      | some m ↦ elim (receive_all always ks (suc i) rounds rest) [
        | none ↦ none
        | some (ms, left) ↦ some (m ∷ ms, left)
      ]
    ]
  ]

-- The kernel serves each message in turn.
abbrev pub AllReady :
    (throttle cpu_utilization : ℕ → ℕ) → (ℕ → Answers) → ℕ → List (Message (List ℕ)) → Type 0
AllReady throttle cpu_utilization ks i [] = Unit
AllReady throttle cpu_utilization ks i (m ∷ ms) =
    Ready (frame_of (throttle i) (cpu_utilization i) m) (ks i)
    × AllReady throttle cpu_utilization ks (suc i) ms

-- What the side can send to this receiver: a job by a number of 31 bits with a slice of its size,
-- and the job -1 only to the server.
abbrev pub Sendable : Bool → Message (List ℕ) → Type 0
Sendable always (job id slice) = (id < 2 ^ 31) × (length slice ≡ slice_bytes)
Sendable always stop = always ≡ false
Sendable always (state jobs) = IsInt32 jobs
Sendable always rebalance = Unit

module _ (throttle cpu_utilization : ℕ → ℕ) (to_float : ℤ → ℕ) where
  frame_of-Whole :
      (always : Bool) (i : ℕ) (m : Message (List ℕ))
      → Sendable always m
      → Whole always (frame_of (throttle i) (cpu_utilization i) m)
  frame_of-Whole always i (job id slice) h = h
  frame_of-Whole always i stop h = (h, refl, refl)
  frame_of-Whole always i (state n) h = length-state_bytes n (throttle i) (cpu_utilization i)
  frame_of-Whole always i rebalance h = tt

  message_of-frame_of :
      (always : Bool) (i : ℕ) (m : Message (List ℕ))
      → Sendable always m
      → message_of to_float (frame_of (throttle i) (cpu_utilization i) m) ≡ some m
  message_of-frame_of always i (job id slice) h = refl
  message_of-frame_of always i stop h = refl
  message_of-frame_of always i (state n) h =
      ap (λ k. some (state k))
        (peer_num_jobs-state_bytes to_float n (throttle i) (cpu_utilization i) h)
  message_of-frame_of always i rebalance h = refl

  stream :
      (always : Bool) (ks ks' : ℕ → Answers) (i : ℕ) (ms : List (Message (List ℕ))) (more : List ℕ)
      → All (Sendable always) ms
      → AllReady throttle cpu_utilization ks i ms
      → AllReady throttle cpu_utilization ks' i ms
      → (bytes : List ℕ) × (send_all throttle cpu_utilization ks i ms ≡ some bytes)
        × (receive_all to_float always ks' i (length ms) (bytes ++ more) ≡ some (ms, more))
  unfolding send_all receive_all
  stream always ks ks' i [] more h ok ok' = ([], refl, refl)
  stream always ks ks' i (m ∷ ms) more h ok ok' =
      let (others, sent, received) = stream always ks ks' (suc i) ms more h.1 ok.1 ok'.1 in
      let (bytes, sends, arrives) =
        frame_arrives always (frame_of (throttle i) (cpu_utilization i) m) (others ++ more) (ks i)
          (ks' i) (frame_of-Whole always i m h.0) ok.0 ok'.0 in
      (
        bytes ++ others,
        rw (send_all, sends, sent) refl,
        rw
            (
              append_assoc bytes others more,
              receive_all,
              arrives,
              message_of-frame_of always i m h.0,
              received,
            )
            refl,
      )

  -- The messages of a side arrive whole, in order, and no other. Let no call of the kernel fail
  -- with an error other than EINTR, and let each call that is not interrupted move a byte or more,
  -- until all bytes of its message are moved. Then one side sends all its messages, one after the
  -- other, and as many rounds of the receiving loop of the other side return just these messages in
  -- this order, and leave what follows on the connection: each job with its number and slice, each
  -- state with its number of jobs, each request to rebalance, and, to the server, the job -1. The
  -- state is 16 bytes, from which the receiver takes the number of jobs that was put in.
  pub stream_arrives :
      (always : Bool) (ks ks' : ℕ → Answers) (ms : List (Message (List ℕ))) (more : List ℕ)
      → All (Sendable always) ms
      → AllReady throttle cpu_utilization ks 0 ms
      → AllReady throttle cpu_utilization ks' 0 ms
      → (bytes : List ℕ) × (send_all throttle cpu_utilization ks 0 ms ≡ some bytes)
        × (receive_all to_float always ks' 0 (length ms) (bytes ++ more) ≡ some (ms, more))
  stream_arrives always ks ks' ms more h ok ok' = stream always ks ks' 0 ms more h ok ok'
