-- ===== src/Mp4/Frames/Closed.antt =====
-- The client's receiving loop of MP4/client.c when the server has closed the connection.
use Prim.Native.Nat.{min}
use cs423_2017sp.Prelude.{
  ◌+◌, ◌<◌, ◌≢◌, ◌==◌, Bool, false, if◌then◌else◌, ℕ, zero, suc, ◌≡◌, ◌⊎◌, inl, inr, refl, true,
  ◌||◌, Option, none, some, List, [], ◌∷◌, arith, replicate, take,
}
use cs423_2017sp.Prelude.Int.{pos, negsuc, eqb_ℤ}
use cs423_2017sp.Mp4.Jobs.{job_num}
use cs423_2017sp.Mp4.Socket.{
  Answer, interrupted, failed, moves, Received, read_loop, read_all_from_socket,
}
use cs423_2017sp.Mp4.Wire.{get_single_value}
use cs423_2017sp.Mp4.Frames.{Frame, bad, Answers, read_frame}

-- So many rounds of the loop of `read_from_server`, the `i`-th with `finished i` for `job_finished`
-- at its test and with the answers `ks i`: what the reader has taken, what is left on the
-- connection, and whether it has left the loop. What a message does is in Mp4/Hosts/Client.antt.
unfoldable pub reader_rounds :
    (finished : ℕ → ℕ)
    → (ks : ℕ → Answers) → (i rounds : ℕ) → List ℕ
    → Option (List Frame × List ℕ × Bool)
reader_rounds finished ks i zero input = some ([], input, false)
reader_rounds finished ks i (suc rounds) input =
    let taken : Option (List Frame × List ℕ × Bool) = elim (read_frame true (ks i) input) [
      | none ↦ none
      | some (f, rest) ↦ elim (reader_rounds finished ks (suc i) rounds rest) [
        | none ↦ none
        | some (fs, left, over) ↦ some (f ∷ fs, left, over)
      ]
    ] in
    if finished i == job_num then some ([], input, true) else taken

-- A call returns at last, after interruptions.
abbrev pub Returns : List Answer → Type 0
Returns [] = ⊥
Returns (interrupted ∷ answers) = Returns answers
Returns (failed ∷ answers) = Unit
Returns (moves _ ∷ answers) = Unit

take_none : (n : ℕ) → take {A = ℕ} n [] ≡ []
take_none zero = refl
take_none (suc n) = refl

read_all-closed :
    (answers : List Answer)
    → Returns answers
    → (r : Received) × (read_all_from_socket answers 4 [] ≡ some r)
      × ((r.result ≡ pos 0) ⊎ (r.result ≡ negsuc 0))
      × (r.rest ≡ [])
unfolding read_all_from_socket read_loop
read_all-closed [] h = absurd h
read_all-closed (interrupted ∷ answers) h = read_all-closed answers h
read_all-closed (failed ∷ answers) h = (_, refl, inr refl, refl)
read_all-closed (moves n ∷ answers) h =
    rw (read_all_from_socket, read_loop, take_none (min (suc n) 4)) (_, refl, inl refl, refl)

read_frame-closed : (k : Answers) → Returns k.type → read_frame true k [] ≡ some (bad, [])
unfolding read_frame get_single_value
read_frame-closed k h =
    let (r, reads, failed_it, nothing) = read_all-closed k.type h in
    let no_value : (eqb_ℤ r.result (pos 0) || eqb_ℤ r.result (negsuc 0)) ≡ true =
      ground (arith, failed_it) in
    rw (read_frame, get_single_value, reads, no_value, nothing) refl

-- The client does not see that the server is gone. Let the connection be closed or broken between
-- two messages, let each call of the kernel return at last, and let the thread not be cancelled.
-- Then in any number of rounds at whose tests not all jobs are finished, `read_from_server` takes a
-- bad message in each and is still in its loop after them.
pub reader_rounds-closed :
    (finished : ℕ → ℕ) (ks : ℕ → Answers) (i rounds : ℕ)
    → ((j : ℕ) → Returns (ks j).type)
    → ((j : ℕ) → j < i + rounds → finished j ≢ job_num)
    → reader_rounds finished ks i rounds [] ≡ some (replicate rounds bad, [], false)
unfolding reader_rounds
reader_rounds-closed finished ks i zero h waits = refl
reader_rounds-closed finished ks i (suc rounds) h waits =
    let goes_on : (finished i == job_num) ≡ false = ground (arith, waits i (omega arith)) in
    let rest =
      reader_rounds-closed finished ks (suc i) rounds h (λ j below. waits j (omega arith)) in
    rw (reader_rounds, goes_on, read_frame-closed (ks i) (h i), rest) refl
