-- ===== src/Mp4/Socket/Write.antt =====
-- `write_all_to_socket` of MP4/utils.c, and what the other end then reads.
use mathlib.Core.Path.{subst}
use cs423_2017sp.Prelude.{
  ℕ, zero, suc, ◌≤◌, ◌<◌, ◌≡◌, ◌∙◌, refl, sym, ap, ◌⊎◌, inl, inr, true, false, some, List, [], ◌∷◌,
  ◌++◌, arith, take, drop, length, length-append, append_assoc, append-nil, Bool-cases, some_inj,
  ◌==◌,
}
use cs423_2017sp.Prelude.Int.{pos_part, pos, negsuc}
use cs423_2017sp.Mp4.Socket.{
  Answer, interrupted, failed, moves, Received, Sent, write_loop, read_all_from_socket,
  write_all_to_socket,
}
use cs423_2017sp.Mp4.Socket.Read.{moving, length-take-pos, Outcome-full, read_all-Outcome}

take-append-drop : (n : ℕ) (xs : List ℕ) → take n xs ++ drop n xs ≡ xs
take-append-drop zero xs = refl
take-append-drop (suc n) [] = refl
take-append-drop (suc n) (x ∷ xs) = ap (λ ys. x ∷ ys) (take-append-drop n xs)

-- The bytes that went out are the first ones of the buffer, and all if the result is positive.
pub record WriteOutcome (buffer : List ℕ) (w : Sent) : Type 0 where
  pub prefix : (left : List ℕ) × (w.sent ++ left ≡ buffer)
  pub result :
      ((w.result ≡ pos (length buffer)) × (w.sent ≡ buffer))
      ⊎ (w.result ≡ pos 0)
      ⊎ (w.result ≡ negsuc 0)

nil_of_length : (xs : List ℕ) → (length xs == 0) ≡ true → xs ≡ []
nil_of_length [] e = refl
nil_of_length (x ∷ xs) e = ground arith

write_loop-WriteOutcome :
    (answers : List Answer) (sent left : List ℕ) {w : Sent}
    → 0 < length left
    → write_loop answers sent left ≡ some w
    → WriteOutcome (sent ++ left) w
unfolding write_loop
write_loop-WriteOutcome [] sent left h e = absurd (ground arith)
write_loop-WriteOutcome (interrupted ∷ answers) sent left h e =
    let more : (length left == 0) ≡ false = ground arith in
    write_loop-WriteOutcome answers sent left h (rw (more, write_loop) at e)
write_loop-WriteOutcome (failed ∷ answers) sent left h e =
    subst (WriteOutcome (sent ++ left)) (some_inj e)
      (record { prefix = (left, refl); result = inr (inr refl) })
write_loop-WriteOutcome (moves n ∷ answers) sent left {w} h e =
    elim (Bool-cases (length put == 0)) [
      | inl nothing ↦
          subst Holds (some_inj (rw (nothing, write_loop) at e))
            (record { prefix = (left, refl); result = inr (inl refl) })
      | inr some_bytes ↦ elim (Bool-cases (length rest == 0)) [
        | inl done ↦ subst Holds (some_inj (rw (some_bytes, done, write_loop) at e)) (record {
          prefix = (rest, whole);
          result = inl (ap (λ s. pos (length s)) (all done), all done);
        })
        | inr more ↦
            subst (λ s. WriteOutcome s w) whole
              (write_loop-WriteOutcome answers (sent ++ put) rest (ground arith)
                (rw (some_bytes, more, write_loop) at e))
      ]
    ]
  where
    Holds : Sent → Type 0
    Holds = WriteOutcome (sent ++ left)

    put : List ℕ
    put = take n left

    rest : List ℕ
    rest = drop n left

    whole : (sent ++ put) ++ rest ≡ sent ++ left
    whole = append_assoc sent put rest ∙ ap (λ s. sent ++ s) (take-append-drop n left)

    all : (length rest == 0) ≡ true → sent ++ put ≡ sent ++ left
    all done =
        sym (append-nil (sent ++ put))
        ∙ ap (λ s. (sent ++ put) ++ s) (sym (nil_of_length rest done))
        ∙ whole

-- Whatever the kernel answers, if `write_all_to_socket` returns, then what went out is a prefix of
-- the buffer, and the result is the length of the buffer, with all of it sent, or 0, or -1. At
-- least one byte is to be sent.
pub write_all-WriteOutcome :
    (answers : List Answer) (buffer : List ℕ) {w : Sent}
    → 0 < length buffer
    → write_all_to_socket answers buffer ≡ some w
    → WriteOutcome buffer w
unfolding write_all_to_socket
write_all-WriteOutcome answers buffer h e = write_loop-WriteOutcome answers [] buffer h e

head_tail : {x y : ℕ} {xs ys : List ℕ} → x ≡ y → xs ≡ ys → x ∷ xs ≡ y ∷ ys
head_tail e f i = e i ∷ f i

append_cancel :
    (xs ys : List ℕ) {zs ws : List ℕ}
    → length xs ≡ length ys
    → xs ++ zs ≡ ys ++ ws
    → (xs ≡ ys) × (zs ≡ ws)
append_cancel [] [] len e = (refl, e)
append_cancel [] (y ∷ ys) len e = absurd (omega arith)
append_cancel (x ∷ xs) [] len e = absurd (omega arith)
append_cancel (x ∷ xs) (y ∷ ys) {zs = zs} {ws = ws} len e =
    let head : x ≡ y = cc in
    let after : xs ++ zs ≡ ys ++ ws = cc in
    let (tail, rest) = append_cancel xs ys (omega arith) after in (head_tail head tail, rest)

-- A message survives the connection, however the kernel splits it on either side. If
-- `write_all_to_socket` reports the whole message as sent, and `read_all_from_socket` at the other
-- end, asking for as many bytes, reports that number, then the bytes that it read are the message,
-- and what the sender sent after it is still to be read.
pub read_all-write_all :
    (answers answers' : List Answer) (message more : List ℕ) {w : Sent} {r : Received}
    → 0 < length message
    → write_all_to_socket answers message ≡ some w
    → w.result ≡ pos (length message)
    → read_all_from_socket answers' (length message) (w.sent ++ more) ≡ some r
    → r.result ≡ pos (length message)
    → (r.buffer ≡ message) × (r.rest ≡ more)
read_all-write_all answers answers' message more {w} {r} h we wr re rr =
    let sent : w.sent ≡ message =
      ground (arith, (write_all-WriteOutcome answers message h we).result) in
    let o = read_all-Outcome answers' (length message) (w.sent ++ more) h re in
    append_cancel r.buffer message (Outcome-full o h rr) (o.split ∙ ap (λ s. s ++ more) sent)

-- No call fails for good, and each that is not interrupted moves a byte or more.
abbrev pub Progress : List Answer → Type 0
Progress [] = Unit
Progress (interrupted ∷ answers) = Progress answers
Progress (failed ∷ answers) = ⊥
Progress (moves n ∷ answers) = (0 < n) × Progress answers

length-drop-lt : (n : ℕ) (xs : List ℕ) → 0 < n → 0 < length xs → length (drop n xs) < length xs
length-drop-lt zero xs h k = absurd (omega arith)
length-drop-lt (suc n) [] h k = absurd (omega arith)
length-drop-lt (suc zero) (x ∷ xs) h k = omega arith
length-drop-lt (suc (suc n)) (x ∷ []) h k = omega arith
length-drop-lt (suc (suc n)) (x ∷ y ∷ xs) h k =
    omega (arith, length-drop-lt (suc n) (y ∷ xs) (omega arith) (omega arith))

write_loop_complete :
    (answers : List Answer) (sent left : List ℕ)
    → Progress answers
    → 0 < length left
    → length left ≤ moving answers
    → (w : Sent) × (write_loop answers sent left ≡ some w) × (0 < pos_part w.result)
unfolding write_loop
write_loop_complete [] sent left ok some_left enough = absurd (omega arith)
write_loop_complete (interrupted ∷ answers) sent left ok some_left enough =
    let more : (length left == 0) ≡ false = ground arith in
    rw (write_loop, more) (write_loop_complete answers sent left ok some_left enough)
write_loop_complete (failed ∷ answers) sent left ok some_left enough = absurd ok
write_loop_complete (moves n ∷ answers) sent left ok some_left enough =
    let put = take n left in
    let got : (length put == 0) ≡ false = ground (arith, length-take-pos n left ok.0 some_left) in
    let fewer = length-drop-lt n left ok.0 some_left in
    elim (Bool-cases (length (drop n left) == 0)) [
      | inl done ↦ (
        record { result = pos (length (sent ++ put)); sent = sent ++ put },
        rw (write_loop, got, done),
        omega (arith, length-append sent put, length-take-pos n left ok.0 some_left),
      )
      | inr more ↦
          rw (write_loop, got, more)
            (write_loop_complete answers (sent ++ put) (drop n left) ok.1 (ground arith)
              (omega (arith, fewer)))
    ]

-- `write_all_to_socket` returns, with the length of the buffer and all of it sent, if the buffer is
-- not empty, no call fails with an error other than EINTR, each call that is not interrupted moves
-- at least one byte, and there are at least as many of these as bytes to send. Interruptions may
-- come in any number and between any calls.
pub write_all_complete :
    (answers : List Answer) (buffer : List ℕ)
    → Progress answers
    → 0 < length buffer
    → length buffer ≤ moving answers
    → (w : Sent) × (write_all_to_socket answers buffer ≡ some w)
      × (w.result ≡ pos (length buffer))
      × (w.sent ≡ buffer)
unfolding write_all_to_socket
write_all_complete answers buffer ok h enough =
    let (w, run, positive) = write_loop_complete answers [] buffer ok h enough in
    elim (write_loop-WriteOutcome answers [] buffer h run).result [
      | inl (full, sent) ↦ (w, run, full, sent)
      | inr (inl nothing) ↦ absurd (ground (arith, nothing))
      | inr (inr failure) ↦ absurd (ground (arith, failure))
    ]
