-- ===== src/Mp3/Monitor.antt =====
-- `main` of MP3/monitor.c, which prints and clears the mapped buffer of the profiler. Words are 64
-- bits, so `-1` is 2 ^ 64 - 1.
pub mod Drained
use mathlib.Core.Path.{subst}
use cs423_2017sp.Prelude.{
  ℕ, zero, suc, ◌+◌, ◌-◌, ◌*◌, ◌^◌, ◌≤◌, ◌<◌, ◌≡◌, ◌≢◌, ◌∙◌, refl, sym, ap, true, false, Option,
  none, some, List, [], ◌∷◌, ◌++◌, arith, leb, ltb, ◌==◌, if◌then◌else◌, Bool-cases, inl, inr, ◌&&◌,
  append-nil, append_assoc,
}

abbrev pub bufd_max : ℕ
bufd_max = 48000

abbrev pub cleared : ℕ
cleared = 2 ^ 64 - 1

-- The loop that skips cleared words, on the number of words that are left of `BUFD_MAX`.
unfoldable pub skip : (left index : ℕ) → (ℕ → ℕ) → ℕ
skip zero index buf = index
skip (suc left) index buf =
    let rest = skip left (suc index) buf in if buf index == cleared then rest else index

-- The buffer and the index after one word, and what was printed.
pub record Printing : Type 0 where
  pub buf : ℕ → ℕ
  pub index : ℕ
  pub printed : List ℕ

unfoldable pub print_word : Printing → Printing
print_word s = record {
  buf = λ j. if j == s.index then cleared else s.buf j;
  index = if leb bufd_max (suc s.index) then 0 else suc s.index;
  printed = s.printed ++ s.buf s.index ∷ [];
}

-- The loop that prints four words a line; `none` is the end of the fuel. The result has the number
-- of lines.
unfoldable pub print_lines : ℕ → Printing → (i : ℕ) → Option (Printing × ℕ)
print_lines zero s i = none
print_lines (suc fuel) s i =
    let rest = print_lines fuel (print_word (print_word (print_word (print_word s)))) (suc i) in
    if s.buf s.index == cleared then some (s, i) else rest

-- Fuel for as many lines as the buffer holds and the last test.
unfoldable pub monitor : (ℕ → ℕ) → Option (Printing × ℕ)
monitor buf = print_lines 12001 (record { buf = buf; index = skip bufd_max 0 buf; printed = [] }) 0

-- The words from an index on, four to a line.
abbrev pub lines_from : (ℕ → ℕ) → (a lines : ℕ) → List ℕ
lines_from buf a zero = []
lines_from buf a (suc n) =
    buf a ∷ buf (suc a) ∷ buf (suc (suc a)) ∷ buf (suc (suc (suc a))) ∷ lines_from buf (a + 4) n

-- The words before `a` are cleared, the others are those of the buffer, and `a` is next.
record At (buf : ℕ → ℕ) (a : ℕ) (s : Printing) : Type 0 where
  index : s.index ≡ (if a == bufd_max then 0 else a)
  words : (j : ℕ) → s.buf j ≡ (if ltb j a then cleared else buf j)

print_word-At :
    (buf : ℕ → ℕ) (a : ℕ) (s : Printing)
    → a < bufd_max
    → At buf a s
    → At buf (suc a) (print_word s) × ((print_word s).printed ≡ s.printed ++ buf a ∷ [])
unfolding print_word
print_word-At buf a s lt at_a =
    let here : s.index ≡ a = ground (arith, at_a.index) in
    (
      record { index = ground arith; words = λ j. ground (arith, at_a.words j) },
      ap (λ w. s.printed ++ w ∷ []) (rw here (at_a.words a ∙ ground arith)),
    )

print_line-At :
    (buf : ℕ → ℕ) (a : ℕ) (s : Printing)
    → a + 4 ≤ bufd_max
    → At buf a s
    → At buf (a + 4) (print_word (print_word (print_word (print_word s))))
      × ((print_word (print_word (print_word (print_word s)))).printed
          ≡ s.printed ++ buf a ∷ buf (suc a) ∷ buf (suc (suc a)) ∷ buf (suc (suc (suc a))) ∷ [])
print_line-At buf a s le at_a =
    let (at₁, out₁) = print_word-At buf a s (omega arith) at_a in
    let (at₂, out₂) = print_word-At buf (suc a) _ (omega arith) at₁ in
    let (at₃, out₃) = print_word-At buf (suc (suc a)) _ (omega arith) at₂ in
    let (at₄, out₄) = print_word-At buf (suc (suc (suc a))) _ (omega arith) at₃ in
    let four : suc (suc (suc (suc a))) ≡ a + 4 = omega arith in
    (
      subst (λ b. At buf b (print_word (print_word (print_word (print_word s))))) four at₄,
      out₄
          ∙ ap (λ out. out ++ buf (suc (suc (suc a))) ∷ [])
              (out₃
                ∙ ap (λ out. out ++ buf (suc (suc a)) ∷ [])
                    (out₂ ∙ ap (λ out. out ++ buf (suc a) ∷ []) out₁))
          ∙ grow s.printed _ _ _ _,
    )
  where
    grow :
        (out : List ℕ) (w x y z : ℕ)
        → (((out ++ w ∷ []) ++ x ∷ []) ++ y ∷ []) ++ z ∷ [] ≡ out ++ w ∷ x ∷ y ∷ z ∷ []
    grow [] w x y z = refl
    grow (o ∷ out) w x y z = ap (λ rest. o ∷ rest) (grow out w x y z)

-- The printing loop runs over `n` lines and stops at the cleared word behind them.
print_lines-At :
    (n more : ℕ) (buf : ℕ → ℕ) (a : ℕ) (s : Printing) (i : ℕ)
    → ((j : ℕ) → a ≤ j → j < a + 4 * n → buf j ≢ cleared)
    → a + 4 * n ≤ bufd_max
    → (a + 4 * n < bufd_max → buf (a + 4 * n) ≡ cleared)
    → 0 < a + 4 * n
    → At buf a s
    → (s' : Printing) × (print_lines (suc n + more) s i ≡ some (s', i + n))
      × (s'.printed ≡ s.printed ++ lines_from buf a n)
      × At buf (a + 4 * n) s'
unfolding print_lines
print_lines-At zero more buf a s i sampled le behind some_word at_a =
    let same : a ≡ a + 4 * 0 = omega arith in
    let stops : (s.buf s.index == cleared) ≡ true = elim (Bool-cases (a == bufd_max)) [
      | inl whole ↦ ground (arith, at_a.index, whole, at_a.words 0)
      | inr part ↦
          let here : s.index ≡ a = ground (arith, at_a.index, part) in
          let last : buf a ≡ cleared = rw same (behind (ground (arith, part))) in
          rw here (ground (arith, at_a.words a, last))
    ] in
    (
      s,
      rw (one_more more) (rw (print_lines, stops) (ap (λ m. some (s, m)) (omega arith))),
      sym (append-nil s.printed),
      subst (λ b. At buf b s) same at_a,
    )
  where
    one_more : (more : ℕ) → suc zero + more ≡ suc more
    one_more more = omega arith
print_lines-At (suc n) more buf a s i sampled le behind some_word at_a =
    let same : a + 4 * suc n ≡ a + 4 + 4 * n = omega arith in
    let (at_next, out) = print_line-At buf a s (omega arith) at_a in
    let (s', run, printed, done) =
      print_lines-At n more buf (a + 4) _ (suc i)
        (λ j from to. sampled j (omega arith) (omega arith)) (omega arith)
        (λ part. rw (← same) (behind (omega arith))) (omega arith) at_next in
    let here : s.index ≡ a = ground (arith, at_a.index) in
    let goes : (s.buf s.index == cleared) ≡ false =
      rw here (ground (arith, at_a.words a, sampled a (omega arith) (omega arith))) in
    let fuel : suc (suc n) + more ≡ suc (suc n + more) = omega arith in
    (
      s',
      rw (fuel, print_lines, goes) (run ∙ ap (λ m. some (s', m)) (omega arith)),
      printed ∙ ap (λ o. o ++ lines_from buf (a + 4) n) out ∙ append_assoc s.printed _ _,
      subst (λ b. At buf b s') (sym same) done,
    )

skip-cleared :
    (lo left index : ℕ) (buf : ℕ → ℕ)
    → ((j : ℕ) → j < lo → buf j ≡ cleared)
    → buf lo ≢ cleared
    → index ≤ lo
    → lo < index + left
    → skip left index buf ≡ lo
unfolding skip
skip-cleared lo zero index buf before word from to = omega arith
skip-cleared lo (suc left) index buf before word from to = elim (Bool-cases (index == lo)) [
  | inl here ↦ ground (arith, here, word)
  | inr there ↦
      let passed : (buf index == cleared) ≡ true =
        ground (arith, before index (ground (arith, there))) in
      rw (skip, passed)
        (skip-cleared lo left (suc index) buf before word (ground (arith, there)) (omega arith))
]

-- A run of the monitor prints what stands between cleared words, and clears it. Let the words
-- before `lo` be `-1`, and from there `n` lines of four words none of which is, within the first
-- 48000 words, at least one line; and let `-1` follow them if they do not go up to the end. Then
-- the monitor ends after `n` lines, prints these words in order, and leaves `-1` in their places
-- and all others as they were.
pub monitor_window :
    (buf : ℕ → ℕ) (lo n : ℕ)
    → ((j : ℕ) → j < lo → buf j ≡ cleared)
    → ((j : ℕ) → lo ≤ j → j < lo + 4 * n → buf j ≢ cleared)
    → (lo + 4 * n < bufd_max → buf (lo + 4 * n) ≡ cleared)
    → lo + 4 * n ≤ bufd_max
    → 0 < n
    → (s : Printing) × (monitor buf ≡ some (s, n))
      × (s.printed ≡ lines_from buf lo n)
      × ((j : ℕ) → s.buf j ≡ (if leb lo j && ltb j (lo + 4 * n) then cleared else buf j))
unfolding monitor
monitor_window buf lo n before sampled behind le some_line =
    let first : Printing = record { buf = buf; index = skip bufd_max 0 buf; printed = [] } in
    let fuel : 12001 ≡ suc n + (12000 - n) = omega arith in
    let starts : first.index ≡ lo =
      skip-cleared lo bufd_max 0 buf before (sampled lo (omega arith) (omega arith)) (omega arith)
        (omega arith) in
    let (s, run, printed, done) =
      print_lines-At n (12000 - n) buf lo first 0 sampled le behind (omega arith)
        (record { index = ground (arith, starts); words = λ j. ground (arith, before j) }) in
    (
      s,
      subst (λ f. print_lines f first 0 ≡ some (s, n)) (sym fuel)
          (run ∙ ap (λ m. some (s, m)) (omega arith)),
      printed,
      λ j. ground (arith, done.words j, before j),
    )

-- If none of the 48000 words is `-1` to begin with, the monitor ends after 12000 lines, prints all
-- 48000 words in order, and leaves all of them cleared and the words behind them as they were. The
-- buffer of MP3/mp3.c starts with zeros, so this is what happens however few samples the profiler
-- has taken.
pub monitor-lines :
    (buf : ℕ → ℕ)
    → ((j : ℕ) → j < bufd_max → buf j ≢ cleared)
    → (s : Printing) × (monitor buf ≡ some (s, 12000))
      × (s.printed ≡ lines_from buf 0 12000)
      × ((j : ℕ) → s.buf j ≡ (if ltb j bufd_max then cleared else buf j))
monitor-lines buf sampled =
    let (s, run, printed, done) =
      monitor_window buf 0 12000 (λ j lt. absurd (omega arith)) (λ j from to. sampled j to)
        (λ part. absurd (omega arith)) (omega arith) (omega arith) in
    (s, run, printed, λ j. done j ∙ ground arith)
