-- ===== src/Mp4/Socket.antt =====
-- `read_all_from_socket` and `write_all_to_socket` of MP4/utils.c. The kernel answers each call of
-- `read` and `write` in a way that the caller cannot choose; a list of such answers drives a loop,
-- and `none` means that the loop still waits when the list is used up. Bytes are numbers.
pub mod Read
pub mod Write
use Prim.Native.Nat.{min}
use cs423_2017sp.Prelude.{
  ℕ, suc, ◌-◌, Option, none, some, List, [], ◌∷◌, ◌++◌, take, drop, length, ltb, ◌==◌,
  if◌then◌else◌,
}
use cs423_2017sp.Prelude.Int.{ℤ, pos, negsuc}

-- The answer to one call: -1 with EINTR, -1 with another error, or at most `n` bytes moved.
pub data Answer : Type 0 where
  interrupted : Answer
  failed : Answer
  moves : (n : ℕ) → Answer

-- What `read_all_from_socket` leaves: its result, the bytes in the buffer, and those that are still
-- to come on the connection.
pub record Received : Type 0 where
  pub result : ℤ
  pub buffer : List ℕ
  pub rest : List ℕ

-- One call of `read` for `count` bytes: at least one byte, unless the peer has closed the
-- connection and all is read.
abbrev pub read_call : (n count : ℕ) → List ℕ → List ℕ
read_call n count input = take (min (suc n) count) input

-- The loop, from the bytes that are in the buffer. `continue` in a `do` loop goes to its test.
unfoldable pub read_loop : List Answer → (count : ℕ) → (buffer input : List ℕ) → Option Received
read_loop [] count buffer input = none
read_loop (interrupted ∷ answers) count buffer input =
    let again = read_loop answers count buffer input in
    if ltb (length buffer) count
    then again
    else some (record { result = pos (length buffer); buffer = buffer; rest = input })
read_loop (failed ∷ answers) count buffer input =
    some (record { result = negsuc 0; buffer = buffer; rest = input })
read_loop (moves n ∷ answers) count buffer input =
    let got = read_call n (count - length buffer) input in
    let rest = drop (length got) input in
    let again = read_loop answers count (buffer ++ got) rest in
    if length got == 0
    then some (record { result = pos 0; buffer = buffer; rest = input })
    else if ltb (length (buffer ++ got)) count
    then again
    else some
        (record { result = pos (length (buffer ++ got)); buffer = buffer ++ got; rest = rest })

unfoldable pub read_all_from_socket : List Answer → (count : ℕ) → List ℕ → Option Received
unfolding read_loop
read_all_from_socket answers count input = read_loop answers count [] input

-- What `write_all_to_socket` leaves: its result and the bytes that went out.
pub record Sent : Type 0 where
  pub result : ℤ
  pub sent : List ℕ

-- The loop, from the bytes that went out and those that are left of the buffer.
unfoldable pub write_loop : List Answer → (sent left : List ℕ) → Option Sent
write_loop [] sent left = none
write_loop (interrupted ∷ answers) sent left =
    let again = write_loop answers sent left in
    if length left == 0 then some (record { result = pos (length sent); sent = sent }) else again
write_loop (failed ∷ answers) sent left = some (record { result = negsuc 0; sent = sent })
write_loop (moves n ∷ answers) sent left =
    let put = take n left in
    let again = write_loop answers (sent ++ put) (drop n left) in
    if length put == 0
    then some (record { result = pos 0; sent = sent })
    else if length (drop n left) == 0
    then some (record { result = pos (length (sent ++ put)); sent = sent ++ put })
    else again

-- `buffer` holds the `count` bytes to send.
unfoldable pub write_all_to_socket : List Answer → List ℕ → Option Sent
unfolding write_loop
write_all_to_socket answers buffer = write_loop answers [] buffer
