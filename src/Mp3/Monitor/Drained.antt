-- ===== src/Mp3/Monitor/Drained.antt =====
-- What the monitor of MP3/monitor.c does when there is nothing to print.
use cs423_2017sp.Prelude.{
  ℕ, zero, suc, ◌+◌, ◌<◌, ◌≤◌, List, ◌≡◌, ◌≢◌, refl, true, false, some, [], ◌∷◌, ◌++◌, arith, ◌==◌,
}
use cs423_2017sp.Mp3.Monitor.{bufd_max, cleared, skip, Printing, print_word, print_lines, monitor}

skip_all :
    (left index : ℕ) (buf : ℕ → ℕ)
    → ((j : ℕ) → j < index + left → buf j ≡ cleared)
    → skip left index buf ≡ index + left
unfolding skip
skip_all zero index buf all = omega arith
skip_all (suc left) index buf all =
    ground
      (arith, all index (omega arith), skip_all left (suc index) buf (λ j lt. all j (omega arith)))

-- All is cleared up to the 48000th word, the loop has come to the index `i`, and has printed `out`.
record Clear (i : ℕ) (out : List ℕ) (s : Printing) : Type 0 where
  index : s.index ≡ i
  words : (j : ℕ) → j ≤ bufd_max → s.buf j ≡ cleared
  printed : s.printed ≡ out

first_word-Clear :
    (s : Printing)
    → s.index ≡ bufd_max
    → s.printed ≡ []
    → ((j : ℕ) → j < bufd_max → s.buf j ≡ cleared)
    → Clear 0 (s.buf bufd_max ∷ []) (print_word s)
unfolding print_word
first_word-Clear s at none_yet low = record {
  index = rw at refl;
  words = λ j le. ground (arith, at, low j);
  printed = rw (at, none_yet) refl;
}

print_word-Clear :
    (i : ℕ) (out : List ℕ) (s : Printing)
    → suc i < bufd_max
    → Clear i out s
    → Clear (suc i) (out ++ cleared ∷ []) (print_word s)
unfolding print_word
print_word-Clear i out s inside v =
    let here : s.buf s.index ≡ cleared = v.words s.index (omega (arith, v.index)) in
    record {
      index = ground (arith, v.index);
      words = λ j le. ground (arith, v.words j le);
      printed = rw (v.printed, here) refl;
    }

print_line-Clear :
    (s : Printing)
    → s.index ≡ bufd_max
    → s.printed ≡ []
    → ((j : ℕ) → j < bufd_max → s.buf j ≡ cleared)
    → Clear 3
        (s.buf bufd_max ∷ cleared ∷ cleared ∷ cleared ∷ [])
        (print_word (print_word (print_word (print_word s))))
print_line-Clear s at none_yet low = print_word-Clear 2 _ _ (omega arith) (
    print_word-Clear 1 _ _ (omega arith)
      (print_word-Clear 0 _ _ (omega arith) (first_word-Clear s at none_yet low)))

one_line :
    (more : ℕ) (s : Printing)
    → s.index ≡ bufd_max
    → s.printed ≡ []
    → ((j : ℕ) → j < bufd_max → s.buf j ≡ cleared)
    → s.buf bufd_max ≢ cleared
    → (s' : Printing) × (print_lines (suc (suc more)) s 0 ≡ some (s', 1))
      × Clear 3 (s.buf bufd_max ∷ cleared ∷ cleared ∷ cleared ∷ []) s'
unfolding print_lines
one_line more s at none_yet low word =
    let clear = print_line-Clear s at none_yet low in
    let s' = print_word (print_word (print_word (print_word s))) in
    let goes : (s.buf s.index == cleared) ≡ false = ground (arith, at, word) in
    let stops : (s'.buf s'.index == cleared) ≡ true =
      ground (arith, clear.words s'.index (omega (arith, clear.index))) in
    (s', rw (print_lines, goes, stops) refl, clear)

-- When all of the first 48000 words are `-1` and the word behind them is not, as in a buffer that
-- the monitor has read, it prints one line: that word, and three times -1. It clears the word.
pub monitor-drained :
    (buf : ℕ → ℕ)
    → ((j : ℕ) → j < bufd_max → buf j ≡ cleared)
    → buf bufd_max ≢ cleared
    → (s : Printing) × (monitor buf ≡ some (s, 1))
      × (s.printed ≡ buf bufd_max ∷ cleared ∷ cleared ∷ cleared ∷ [])
      × (s.buf bufd_max ≡ cleared)
unfolding monitor
monitor-drained buf drained word =
    let first : Printing = record { buf = buf; index = skip bufd_max 0 buf; printed = [] } in
    let (s, run, clear) =
      one_line 11999 first (skip_all bufd_max 0 buf drained) refl drained word in
    (s, run, clear.printed, clear.words bufd_max (omega arith))
