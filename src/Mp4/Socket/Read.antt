-- ===== src/Mp4/Socket/Read.antt =====
-- `read_all_from_socket` of MP4/utils.c delivers all or nothing.
use Prim.Native.Nat.{min}
use mathlib.Core.Path.{subst}
use cs423_2017sp.Prelude.{
  ℕ, zero, suc, ◌+◌, ◌-◌, ◌≤◌, ◌<◌, ◌≡◌, ◌∙◌, refl, sym, ap, ◌⊎◌, inl, inr, true, false, some, List,
  [], ◌∷◌, ◌++◌, arith, take, drop, length, length-append, append_assoc, Bool-cases, ltb, lt→ltb,
  ltb→lt, some_inj, ◌==◌,
}
use cs423_2017sp.Prelude.Int.{pos, negsuc}
use cs423_2017sp.Mp4.Socket.{
  Answer, interrupted, failed, moves, Received, read_call, read_loop, read_all_from_socket,
}

take-drop-length : (n : ℕ) (xs : List ℕ) → take n xs ++ drop (length (take n xs)) xs ≡ xs
take-drop-length zero xs = refl
take-drop-length (suc n) [] = refl
take-drop-length (suc n) (x ∷ xs) = ap (λ ys. x ∷ ys) (take-drop-length n xs)

length-take-le : (n : ℕ) (xs : List ℕ) → length (take n xs) ≤ n
length-take-le zero xs = omega arith
length-take-le (suc n) [] = omega arith
length-take-le (suc n) (x ∷ xs) = omega (arith, length-take-le n xs)

take_nothing : (n : ℕ) (xs : List ℕ) → 0 < n → (length (take n xs) == 0) ≡ true → xs ≡ []
take_nothing zero xs h e = absurd (omega arith)
take_nothing (suc n) [] h e = refl
take_nothing (suc n) (x ∷ xs) h e = ground arith

-- The result says what the buffer holds.
pub record Outcome (count : ℕ) (stream : List ℕ) (r : Received) : Type 0 where
  pub split : r.buffer ++ r.rest ≡ stream
  pub fits : length r.buffer ≤ count
  pub result :
      ((r.result ≡ pos count) × (length r.buffer ≡ count))
      ⊎ ((r.result ≡ pos 0) × (r.rest ≡ []))
      ⊎ (r.result ≡ negsuc 0)

read_loop-Outcome :
    (answers : List Answer) (count : ℕ) (buffer input : List ℕ) {r : Received}
    → length buffer < count
    → read_loop answers count buffer input ≡ some r
    → Outcome count (buffer ++ input) r
unfolding read_loop
read_loop-Outcome [] count buffer input lt e = absurd (ground arith)
read_loop-Outcome (interrupted ∷ answers) count buffer input lt e =
    read_loop-Outcome answers count buffer input lt (rw (lt→ltb _ _ lt) at e)
read_loop-Outcome (failed ∷ answers) count buffer input lt e =
    subst (Outcome count (buffer ++ input)) (some_inj e)
      (record { split = refl; fits = omega arith; result = inr (inr refl) })
read_loop-Outcome (moves n ∷ answers) count buffer input {r} lt e =
    elim (Bool-cases (length got == 0)) [
      | inl closed ↦ subst Holds (some_inj (rw (closed, read_loop) at e)) (record {
        split = refl;
        fits = omega arith;
        result = inr (inl (refl, nothing_left closed));
      })
      | inr some_bytes ↦ elim (Bool-cases (ltb (length (buffer ++ got)) count)) [
        | inl more ↦
            subst (λ s. Outcome count s r) whole
              (read_loop-Outcome answers count (buffer ++ got) rest (ltb→lt _ _ more)
                (rw (some_bytes, more, read_loop) at e))
        | inr done ↦ subst Holds (some_inj (rw (some_bytes, done, read_loop) at e)) (record {
          split = whole;
          fits = total;
          result = inl (ap pos (exactly done), exactly done);
        })
      ]
    ]
  where
    Holds : Received → Type 0
    Holds = Outcome count (buffer ++ input)

    got : List ℕ
    got = read_call n (count - length buffer) input

    rest : List ℕ
    rest = drop (length got) input

    whole : (buffer ++ got) ++ rest ≡ buffer ++ input
    whole =
        append_assoc buffer got rest
        ∙ ap (λ s. buffer ++ s) (take-drop-length (min (suc n) (count - length buffer)) input)

    total : length (buffer ++ got) ≤ count
    total = omega (
      arith,
      length-append buffer got,
      length-take-le (min (suc n) (count - length buffer)) input,
    )

    exactly : ltb (length (buffer ++ got)) count ≡ false → length (buffer ++ got) ≡ count
    exactly done = ground (arith, total)

    nothing_left : (length got == 0) ≡ true → input ≡ []
    nothing_left closed =
        take_nothing (min (suc n) (count - length buffer)) input (omega arith) closed

-- Whatever the kernel answers, if `read_all_from_socket` returns, then the buffer and what is left
-- on the connection make up what the peer sent, and the result is one of three: the number asked
-- for, with that many bytes in the buffer; 0, with nothing left on the closed connection; or -1. A
-- positive number smaller than the one asked for is never returned. At least one byte is asked for.
pub read_all-Outcome :
    (answers : List Answer) (count : ℕ) (input : List ℕ) {r : Received}
    → 0 < count
    → read_all_from_socket answers count input ≡ some r
    → Outcome count input r
unfolding read_all_from_socket
read_all-Outcome answers count input h e = read_loop-Outcome answers count [] input h e

-- The calls that move bytes; no call fails for good.
abbrev pub moving : List Answer → ℕ
moving [] = 0
moving (interrupted ∷ answers) = moving answers
moving (failed ∷ answers) = moving answers
moving (moves n ∷ answers) = suc (moving answers)

abbrev pub Steady : List Answer → Type 0
Steady [] = Unit
Steady (interrupted ∷ answers) = Steady answers
Steady (failed ∷ answers) = ⊥
Steady (moves n ∷ answers) = Steady answers

pub length-take-pos : (n : ℕ) (xs : List ℕ) → 0 < n → 0 < length xs → 0 < length (take n xs)
length-take-pos zero xs h k = absurd (omega arith)
length-take-pos (suc n) [] h k = absurd (omega arith)
length-take-pos (suc n) (x ∷ xs) h k = omega arith

read_loop_complete :
    (answers : List Answer) (count : ℕ) (buffer input : List ℕ)
    → Steady answers
    → length buffer < count
    → count ≤ length buffer + moving answers
    → count ≤ length buffer + length input
    → (r : Received) × (read_loop answers count buffer input ≡ some r) × (r.result ≡ pos count)
unfolding read_loop
read_loop_complete [] count buffer input st lt enough long = absurd (omega arith)
read_loop_complete (interrupted ∷ answers) count buffer input st lt enough long =
    rw (read_loop, lt→ltb _ _ lt) (read_loop_complete answers count buffer input st lt enough long)
read_loop_complete (failed ∷ answers) count buffer input st lt enough long = absurd st
read_loop_complete (moves n ∷ answers) count buffer input st lt enough long =
    elim (Bool-cases (ltb (length (buffer ++ got)) count)) [
      | inl more ↦
          rw (read_loop, some_bytes, more)
            (read_loop_complete answers count (buffer ++ got) rest st (ltb→lt _ _ more)
              (omega (arith, some_got, parts, length-append buffer got))
              (omega (arith, some_got, parts, length-append buffer got)))
      | inr done ↦ (
        record { result = pos (length (buffer ++ got)); buffer = buffer ++ got; rest = rest },
        rw (read_loop, some_bytes, done),
        ap pos (ground (arith, at_most, length-append buffer got)),
      )
    ]
  where
    got : List ℕ
    got = read_call n (count - length buffer) input

    rest : List ℕ
    rest = drop (length got) input

    room : ℕ
    room = min (suc n) (count - length buffer)

    some_got : 0 < length got
    some_got = length-take-pos room input (omega arith) (omega arith)

    some_bytes : (length got == 0) ≡ false
    some_bytes = ground (arith, some_got)

    at_most : length got ≤ count - length buffer
    at_most = omega (arith, length-take-le room input)

    parts : length got + length rest ≡ length input
    parts = sym (length-append got rest) ∙ ap length (take-drop-length room input)

pub Outcome-full :
    {count : ℕ} {stream : List ℕ} {r : Received}
    → Outcome count stream r
    → 0 < count
    → r.result ≡ pos count
    → length r.buffer ≡ count
Outcome-full o h e = ground (arith, o.result)

-- `read_all_from_socket` returns, and with all the bytes that it asked for, if the peer has sent
-- that many, no call fails with an error other than EINTR, and there are at least as many answers
-- that move bytes as bytes asked for, at least one. Interruptions may come in any number and
-- between any calls.
pub read_all_complete :
    (answers : List Answer) (count : ℕ) (input : List ℕ)
    → Steady answers
    → 0 < count
    → count ≤ moving answers
    → count ≤ length input
    → (r : Received) × (read_all_from_socket answers count input ≡ some r)
      × (r.result ≡ pos count)
      × (r.buffer ++ r.rest ≡ input)
      × (length r.buffer ≡ count)
unfolding read_all_from_socket
read_all_complete answers count input st h enough long =
    let (r, run, full) =
      read_loop_complete answers count [] input st h (omega arith) (omega arith) in
    let o = read_loop-Outcome answers count [] input h run in
    (r, run, full, o.split, Outcome-full o h full)
