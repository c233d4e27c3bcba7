-- ===== src/Mp4/Frames.antt =====
-- How the messages of MP4/utils.c stand on a connection: `transfer`, `send_state` and the message
-- for rebalancing as bytes, and what the loops of MP4/client.c and MP4/server.c read. A slice is
-- `JOB_SIZE` doubles of eight bytes; a state is 16 bytes in the host's order. Each call of the
-- kernel is answered by a list of its own.
pub mod RoundTrip
pub mod Stream
pub mod Closed
pub mod State
use cs423_2017sp.Prelude.{
  ℕ, ◌-◌, ◌*◌, ◌||◌, Bool, Option, none, some, List, [], ◌∷◌, ◌++◌, ◌==◌, length, replicate,
  if◌then◌else◌,
}
use cs423_2017sp.Prelude.Int.{ℤ, pos, negsuc, ltb_ℤ, eqb_ℤ}
use cs423_2017sp.Mp4.Jobs.{job_size}
use cs423_2017sp.Mp4.Socket.{Answer, Received, Sent, read_all_from_socket, write_all_to_socket}
use cs423_2017sp.Mp4.Wire.{send_single_value, get_single_value}

-- What a receiver takes from the connection; `bad` is what it passes over.
pub data Frame : Type 0 where
  part : (job_id : ℤ) → (slice : List ℕ) → Frame
  state_frame : List ℕ → Frame
  rebalance_frame : Frame
  bad : Frame

abbrev pub slice_bytes : ℕ
slice_bytes = 8 * job_size

-- The answers to the calls of one message: for its type, for the next number or the state, and for
-- the slice.
pub record Answers : Type 0 where
  pub type : List Answer
  pub number : List Answer
  pub content : List Answer

-- `transfer` with the slice that `create_message` finds: the bytes that go out.
unfoldable pub transfer_frame : Answers → ℤ → List ℕ → Option (List ℕ)
transfer_frame k job_id slice = elim (send_single_value k.type (pos 0)) [
  | none ↦ none
  | some t ↦ elim (send_single_value k.number job_id) [
    | none ↦ none
    | some i ↦
        if eqb_ℤ job_id (negsuc 0)
        then some (t.sent ++ i.sent)
        else if ltb_ℤ (pos 0) i.result
        then elim (write_all_to_socket k.content slice) [
          | none ↦ none
          | some w ↦ some (t.sent ++ i.sent ++ w.sent)
        ]
        else some (t.sent ++ i.sent)
  ]
]

-- `send_state`, its result with the bytes.
unfoldable pub send_state_frame : Answers → List ℕ → Option (ℤ × List ℕ)
send_state_frame k bytes = elim (send_single_value k.type (negsuc 0)) [
  | none ↦ none
  | some t ↦ elim (write_all_to_socket k.number bytes) [
    | none ↦ none
    | some w ↦ some (if eqb_ℤ w.result (pos 16) then pos 0 else negsuc 0, t.sent ++ w.sent)
  ]
]

-- What `adaptor` sends to an overloaded peer.
unfoldable pub rebalance_bytes : Answers → Option (List ℕ)
rebalance_bytes k = elim (send_single_value k.type (pos 2)) [ none ↦ none | some t ↦ some t.sent ]

-- A message is sent.
abbrev pub send_frame : Answers → Frame → Option (List ℕ)
send_frame k (part job_id slice) = transfer_frame k job_id slice
send_frame k (state_frame bytes) = elim (send_state_frame k bytes) [
  | none ↦ none
  | some (_, sent) ↦ some sent
]
send_frame k rebalance_frame = rebalance_bytes k
send_frame k bad = some []

-- `state_handle` up to its use of the state.
unfoldable pub read_state : List Answer → List ℕ → Option (Frame × List ℕ)
read_state answers input = elim (read_all_from_socket answers 16 input) [
  | none ↦ none
  | some r ↦ some (if eqb_ℤ r.result (pos 16) then state_frame r.buffer else bad, r.rest)
]

-- A job and its slice, into a buffer of zeros. The client reads a slice `always`, the server only
-- after a job that is not negative.
unfoldable pub read_part : (always : Bool) → Answers → List ℕ → Option (Frame × List ℕ)
read_part always k input = elim (get_single_value k.number input) [
  | none ↦ none
  | some (job_id, rest) ↦
      if always || ltb_ℤ (negsuc 0) job_id
      then elim (read_all_from_socket k.content slice_bytes rest) [
        | none ↦ none
        | some r ↦
            some (part job_id (r.buffer ++ replicate (slice_bytes - length r.buffer) 0), r.rest)
      ]
      else some (part job_id [], rest)
]

-- The receiving loop on a message.
unfoldable pub read_frame : (always : Bool) → Answers → List ℕ → Option (Frame × List ℕ)
unfolding read_state read_part
read_frame always k input = elim (get_single_value k.type input) [
  | none ↦ none
  | some (type, rest) ↦
      if eqb_ℤ type (negsuc 0)
      then read_state k.number rest
      else if eqb_ℤ type (pos 0)
      then read_part always k rest
      else some (if eqb_ℤ type (pos 2) then rebalance_frame else bad, rest)
]
