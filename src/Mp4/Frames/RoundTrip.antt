-- ===== src/Mp4/Frames/RoundTrip.antt =====
-- A message of MP4/utils.c arrives as it was sent, however the kernel splits it.
use mathlib.Core.Path.{subst}
use cs423_2017sp.Prelude.{
  ℕ, zero, suc, ◌-◌, ◌^◌, ◌≤◌, ◌<◌, ◌≡◌, refl, sym, ap, ◌||◌, Bool, true, false, some, List, [],
  ◌∷◌, ◌++◌, arith, length, length-append, replicate, append-nil, append_assoc,
}
use cs423_2017sp.Prelude.Int.{ℤ, pos, negsuc, ltb_ℤ, eqb_ℤ, IsInt32, bits32}
use cs423_2017sp.Mp4.Socket.{
  Answer, interrupted, failed, moves, Received, Sent, read_all_from_socket, write_all_to_socket,
}
use cs423_2017sp.Mp4.Socket.Read.{moving, Steady, read_all_complete}
use cs423_2017sp.Mp4.Socket.Write.{Progress, write_all_complete, read_all-write_all}
use cs423_2017sp.Mp4.Wire.{
  htonl, send_single_value, get_single_value, get_single_value-send_single_value,
}
use cs423_2017sp.Mp4.Frames.{
  Frame, part, state_frame, rebalance_frame, bad, Answers, slice_bytes, transfer_frame,
  send_state_frame, rebalance_bytes, send_frame, read_state, read_part, read_frame,
}

-- The kernel moves `n` bytes at last.
abbrev pub Serves : ℕ → List Answer → Type 0
Serves n answers = Progress answers × (n ≤ moving answers)

Progress-Steady : (answers : List Answer) → Progress answers → Steady answers
Progress-Steady [] h = tt
Progress-Steady (interrupted ∷ answers) h = Progress-Steady answers h
Progress-Steady (failed ∷ answers) h = h
Progress-Steady (moves n ∷ answers) h = Progress-Steady answers h.1

-- A buffer arrives.
buffer-arrives :
    (k k' : List Answer) (message more : List ℕ)
    → 0 < length message
    → Serves (length message) k
    → Serves (length message) k'
    → (w : Sent) × (r : Received) × (write_all_to_socket k message ≡ some w)
      × (w.result ≡ pos (length message))
      × (w.sent ≡ message)
      × (read_all_from_socket k' (length message) (message ++ more) ≡ some r)
      × (r.result ≡ pos (length message))
      × (r.buffer ≡ message)
      × (r.rest ≡ more)
buffer-arrives k k' message more long ok ok' =
    let (w, wrote, full, same) = write_all_complete k message ok.0 long ok.1 in
    let (r, read, whole, split, size) =
      read_all_complete k' (length message) (message ++ more) (Progress-Steady k' ok'.0) long ok'.1
        (omega (arith, length-append message more)) in
    let (buffer, rest) =
      read_all-write_all k k' message more long wrote full
        (subst (λ s. read_all_from_socket k' (length message) (s ++ more) ≡ some r) (sym same) read)
        whole in
    (w, r, wrote, full, same, read, whole, buffer, rest)

-- A number arrives.
number-arrives :
    (k k' : List Answer) (value : ℤ) (more : List ℕ)
    → IsInt32 value
    → Serves 4 k
    → Serves 4 k'
    → (w : Sent) × (send_single_value k value ≡ some w)
      × (w.result ≡ pos 4)
      × (get_single_value k' (w.sent ++ more) ≡ some (value, more))
unfolding send_single_value
number-arrives k k' value more small ok ok' =
    let bytes = htonl (bits32 value) in
    let (w, r, wrote, full, same, read, whole, _, _) =
      buffer-arrives k k' bytes more (omega arith) ok ok' in
    (
      w,
      wrote,
      full,
      get_single_value-send_single_value k k' value more small wrote full
          (subst (λ s. read_all_from_socket k' 4 (s ++ more) ≡ some r) (sym same) read) whole,
    )

-- A message that the sender can send and the receiver reads to its end. The client waits for a
-- slice after the job -1 too, which has none.
abbrev pub Whole : Bool → Frame → Type 0
Whole always (part (pos n) slice) = (n < 2 ^ 31) × (length slice ≡ slice_bytes)
Whole always (part (negsuc n) slice) = (always ≡ false) × (n ≡ 0) × (slice ≡ [])
Whole always (state_frame bytes) = length bytes ≡ 16
Whole always rebalance_frame = Unit
Whole always bad = ⊥

-- The kernel moves all its bytes at last.
abbrev pub Ready : Frame → Answers → Type 0
Ready (part _ slice) k = Serves 4 k.type × Serves 4 k.number × Serves (length slice) k.content
Ready (state_frame _) k = Serves 4 k.type × Serves 16 k.number
Ready rebalance_frame k = Serves 4 k.type
Ready bad k = Unit

three : (t i w s more : List ℕ) → w ≡ s → (t ++ i ++ w) ++ more ≡ t ++ (i ++ (s ++ more))
three t i w s more same = simp (append_assoc, same) refl

-- A buffer that is full keeps no zeros.
filled : (n : ℕ) (b s : List ℕ) → b ≡ s → length s ≡ n → b ++ replicate (n - length b) 0 ≡ s
filled n b s same long =
    let none_left : n - length b ≡ 0 = omega (arith, long, ap length same) in
    rw (none_left, same) (append-nil s)

part_arrives :
    (always : Bool) (n : ℕ) (slice more : List ℕ) (k k' : Answers)
    → n < 2 ^ 31
    → length slice ≡ slice_bytes
    → Ready (part (pos n) slice) k
    → Ready (part (pos n) slice) k'
    → (w : List ℕ) × (transfer_frame k (pos n) slice ≡ some w)
      × (read_frame always k' (w ++ more) ≡ some (part (pos n) slice, more))
unfolding transfer_frame read_frame read_part
part_arrives always n slice more k k' small long ok ok' =
    let (w, r, wrote, _, same, read, _, buffer, rest) =
      buffer-arrives k.content k'.content slice more (omega (arith, long)) ok.2 ok'.2 in
    let (i, number, full, read_number) =
      number-arrives k.number k'.number (pos n) (slice ++ more) (small, omega arith) ok.1 ok'.1 in
    let (t, type, _, read_type) =
      number-arrives k.type k'.type (pos 0) (i.sent ++ (slice ++ more)) (omega arith, omega arith)
        ok.0 ok'.0 in
    let job : eqb_ℤ (pos n) (negsuc 0) ≡ false = ground arith in
    let any : (always || ltb_ℤ (negsuc 0) (pos n)) ≡ true = ground arith in
    let stream : (t.sent ++ i.sent ++ w.sent) ++ more ≡ t.sent ++ (i.sent ++ (slice ++ more)) =
      three t.sent i.sent w.sent slice more same in
    let read_slice : read_all_from_socket k'.content slice_bytes (slice ++ more) ≡ some r =
      subst (λ c. read_all_from_socket k'.content c (slice ++ more) ≡ some r) long read in
    let padded : r.buffer ++ replicate (slice_bytes - length r.buffer) 0 ≡ slice =
      filled slice_bytes r.buffer slice buffer long in
    (
      t.sent ++ i.sent ++ w.sent,
      rw (transfer_frame, type, number, job, full, wrote) refl,
      rw (stream, read_frame, read_type, read_part, read_number, any, read_slice, padded, rest)
          refl,
    )

stop_arrives :
    (more : List ℕ) (k k' : Answers)
    → Ready (part (negsuc 0) []) k
    → Ready (part (negsuc 0) []) k'
    → (w : List ℕ) × (transfer_frame k (negsuc 0) [] ≡ some w)
      × (read_frame false k' (w ++ more) ≡ some (part (negsuc 0) [], more))
unfolding transfer_frame read_frame read_part
stop_arrives more k k' ok ok' =
    let (i, number, full, read_number) =
      number-arrives k.number k'.number (negsuc 0) more (omega arith, omega arith) ok.1 ok'.1 in
    let (t, type, _, read_type) =
      number-arrives k.type k'.type (pos 0) (i.sent ++ more) (omega arith, omega arith) ok.0
        ok'.0 in
    (
      t.sent ++ i.sent,
      rw (transfer_frame, type, number) refl,
      rw (append_assoc t.sent i.sent more, read_frame, read_type, read_part, read_number) refl,
    )

state_arrives :
    (always : Bool) (bytes more : List ℕ) (k k' : Answers)
    → length bytes ≡ 16
    → Ready (state_frame bytes) k
    → Ready (state_frame bytes) k'
    → (w : List ℕ) × (send_state_frame k bytes ≡ some (pos 0, w))
      × (read_frame always k' (w ++ more) ≡ some (state_frame bytes, more))
unfolding send_state_frame read_frame read_state
state_arrives always bytes more k k' long ok ok' =
    let (w, r, wrote, full, same, read, whole, buffer, rest) =
      buffer-arrives k.number k'.number bytes more (omega (arith, long))
        (ok.1.0, omega (arith, long, ok.1.1)) (ok'.1.0, omega (arith, long, ok'.1.1)) in
    let (t, type, _, read_type) =
      number-arrives k.type k'.type (negsuc 0) (bytes ++ more) (omega arith, omega arith) ok.0
        ok'.0 in
    let stream : (t.sent ++ w.sent) ++ more ≡ t.sent ++ (bytes ++ more) =
      simp (append_assoc, same) refl in
    let read16 : read_all_from_socket k'.number 16 (bytes ++ more) ≡ some r =
      subst (λ c. read_all_from_socket k'.number c (bytes ++ more) ≡ some r) long read in
    let sent16 : eqb_ℤ w.result (pos 16) ≡ true = ground (arith, full, long) in
    let got16 : eqb_ℤ r.result (pos 16) ≡ true = ground (arith, whole, long) in
    (
      t.sent ++ w.sent,
      rw (send_state_frame, type, wrote, sent16) refl,
      rw (stream, read_frame, read_type, read_state, read16, got16, buffer, rest) refl,
    )

rebalance_arrives :
    (always : Bool) (more : List ℕ) (k k' : Answers)
    → Serves 4 k.type
    → Serves 4 k'.type
    → (w : List ℕ) × (rebalance_bytes k ≡ some w)
      × (read_frame always k' (w ++ more) ≡ some (rebalance_frame, more))
unfolding rebalance_bytes read_frame
rebalance_arrives always more k k' ok ok' =
    let (t, type, _, read_type) =
      number-arrives k.type k'.type (pos 2) more (omega arith, omega arith) ok ok' in
    (t.sent, rw (rebalance_bytes, type) refl, rw (read_frame, read_type) refl)

-- A message arrives as it was sent. Let no call of the kernel fail with an error other than EINTR,
-- and let each call that is not interrupted move a byte or more, until all bytes are moved. Then
-- sending a job with its slice, a state, or a request to rebalance returns, and the receiving loop
-- of either side, whatever follows on the connection, returns that message and leaves what
-- follows. For the job -1 this is the loop of the server.
pub frame_arrives :
    (always : Bool) (f : Frame) (more : List ℕ) (k k' : Answers)
    → Whole always f
    → Ready f k
    → Ready f k'
    → (w : List ℕ) × (send_frame k f ≡ some w) × (read_frame always k' (w ++ more) ≡ some (f, more))
frame_arrives always (part (pos n) slice) more k k' whole ok ok' =
    part_arrives always n slice more k k' whole.0 whole.1 ok ok'
frame_arrives true (part (negsuc n) slice) more k k' whole ok ok' = absurd (ground (arith, whole.0))
frame_arrives false (part (negsuc zero) []) more k k' whole ok ok' = stop_arrives more k k' ok ok'
frame_arrives false (part (negsuc zero) (_ ∷ _)) more k k' whole ok ok' =
    absurd (ground (arith, whole.2))
frame_arrives false (part (negsuc (suc n)) slice) more k k' whole ok ok' =
    absurd (ground (arith, whole.1))
frame_arrives always (state_frame bytes) more k k' whole ok ok' =
    let (w, sent, received) = state_arrives always bytes more k k' whole ok ok' in
    (w, rw (send_frame, sent) refl, received)
frame_arrives always rebalance_frame more k k' whole ok ok' =
    rebalance_arrives always more k k' ok ok'
frame_arrives always bad more k k' whole ok ok' = absurd whole
