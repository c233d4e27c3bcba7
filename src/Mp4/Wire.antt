-- ===== src/Mp4/Wire.antt =====
-- The single numbers that the hosts of MP4/utils.c send each other: `send_single_value`, with
-- `send_msg_type` and `write_jobid`, and `get_single_value`, with `get_msg_type` and `get_jobid`. A
-- number goes as four bytes, the highest first; an `int` on the host is the pattern `bits32`.
use cs423_2017sp.Prelude.{
  ℕ, ◌+◌, ◌*◌, ◌/◌, ◌%◌, ◌^◌, ◌<◌, ◌≡◌, ◌∙◌, ap, ◌||◌, Option, none, some, List, [], ◌∷◌, ◌++◌,
  arith, if◌then◌else◌,
}
use cs423_2017sp.Prelude.Int.{ℤ, pos, negsuc, eqb_ℤ, IsInt32, bits32, signed32, signed32-bits32}
use cs423_2017sp.Mp4.Socket.{Answer, Received, Sent, read_all_from_socket, write_all_to_socket}
use cs423_2017sp.Mp4.Socket.Write.{read_all-write_all}

-- `htonl` of a 32-bit pattern, as the bytes that go out.
abbrev pub htonl : ℕ → List ℕ
htonl w = w / 2 ^ 24 % 256 ∷ w / 2 ^ 16 % 256 ∷ w / 2 ^ 8 % 256 ∷ w % 256 ∷ []

-- `ntohl` of the four bytes that came in.
abbrev pub ntohl : List ℕ → ℕ
ntohl (a ∷ b ∷ c ∷ d ∷ []) = a * 2 ^ 24 + b * 2 ^ 16 + c * 2 ^ 8 + d
ntohl _ = 0

unfoldable pub send_single_value : List Answer → ℤ → Option Sent
send_single_value answers value = write_all_to_socket answers (htonl (bits32 value))

-- The value with what is left on the connection; -2 stands for a failed read.
unfoldable pub get_single_value : List Answer → List ℕ → Option (ℤ × List ℕ)
get_single_value answers input = elim (read_all_from_socket answers 4 input) [
  | none ↦ none
  | some r ↦ some (
    if eqb_ℤ r.result (pos 0) || eqb_ℤ r.result (negsuc 0)
        then negsuc 1
        else signed32 (ntohl r.buffer),
    r.rest,
  )
]

ntohl-htonl : (w : ℕ) → w < 2 ^ 32 → ntohl (htonl w) ≡ w
ntohl-htonl w h = omega arith

pub bits32-lt : (a : ℤ) → bits32 a < 2 ^ 32
bits32-lt (pos n) = omega arith
bits32-lt (negsuc n) = omega arith

-- A number survives the connection. If `send_single_value` of an `int` reports that its four bytes
-- are sent, and `read_all_from_socket` at the other end reports that it has read four, then
-- `get_single_value` returns the number, whatever follows it on the connection, and leaves that.
pub get_single_value-send_single_value :
    (answers answers' : List Answer) (value : ℤ) (more : List ℕ) {w : Sent} {r : Received}
    → IsInt32 value
    → send_single_value answers value ≡ some w
    → w.result ≡ pos 4
    → read_all_from_socket answers' 4 (w.sent ++ more) ≡ some r
    → r.result ≡ pos 4
    → get_single_value answers' (w.sent ++ more) ≡ some (value, more)
unfolding send_single_value get_single_value
get_single_value-send_single_value answers answers' value more {w} {r} h we wr re rr =
    let (same, rest) =
      read_all-write_all answers answers' (htonl (bits32 value)) more (omega arith) we wr re rr in
    let back : signed32 (ntohl r.buffer) ≡ value =
      ap (λ b. signed32 (ntohl b)) same
      ∙ ap signed32 (ntohl-htonl (bits32 value) (bits32-lt value))
      ∙ signed32-bits32 value h in
    rw (get_single_value, re, rr, back, rest)
