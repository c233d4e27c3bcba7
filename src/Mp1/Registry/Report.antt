-- ===== src/Mp1/Registry/Report.antt =====
-- The text that `mp1_read` of MP1/mp1.c reports.
use cs423_2017sp.Prelude.{
  ℕ, ◌+◌, ◌<◌, ◌≡◌, ap, false, none, some, List, [], ◌∷◌, ◌++◌, arith, length, length-append, leb,
  ltb, lt→ltb, Bool-cases, inl, inr, if◌then◌else◌, append-nil, append_assoc,
}
use cs423_2017sp.Mp1.Registry.{Entry, Module, line, append_lines, mp1_read}

module _ (decimal : ℕ → List ℕ) (jiffies_to_msecs : ℕ → ℕ) where
  abbrev pub text_of : List Entry → List ℕ
  text_of [] = []
  text_of (e ∷ es) = line decimal jiffies_to_msecs e ++ text_of es

  append_lines-text_of :
      (es : List Entry) (buf : List ℕ)
      → length buf < 2048
      → append_lines decimal jiffies_to_msecs es buf
        ≡ (if ltb (length (buf ++ text_of es)) 2048 then some (buf ++ text_of es) else none)
  unfolding append_lines
  append_lines-text_of [] buf fits = rw (append-nil buf, lt→ltb (length buf) 2048 fits)
  append_lines-text_of (e ∷ es) buf fits =
      elim (Bool-cases (leb (length (buf ++ line decimal jiffies_to_msecs e) + 1) 2048)) [
        | inl room ↦
            rw
              (
                append_lines,
                room,
                ← append_assoc buf (line decimal jiffies_to_msecs e) (text_of es),
              )
              (append_lines-text_of es (buf ++ line decimal jiffies_to_msecs e) (ground arith))
        | inr full ↦ rw (append_lines, full, too_long full)
      ]
    where
      too_long :
          leb (length (buf ++ line decimal jiffies_to_msecs e) + 1) 2048 ≡ false
          → ltb (length (buf ++ (line decimal jiffies_to_msecs e ++ text_of es))) 2048 ≡ false
      too_long full =
          rw (← append_assoc buf (line decimal jiffies_to_msecs e) (text_of es))
            (ground (arith, length-append (buf ++ line decimal jiffies_to_msecs e) (text_of es)))

  -- A read from the start of the file, with at least one process on the list, reports a line for
  -- each, in the order of the list, and a second read at the new position reports the end of the
  -- file. If the lines and the 0 at their end are longer than 2048 characters, the first read
  -- writes behind its buffer instead.
  pub mp1_read-text_of :
      (memory memory' : List ℕ) (e : Entry) (es : List Entry) (m : Module)
      → m.head ≡ e ∷ es
      → let text = text_of (e ∷ es) in
        (mp1_read decimal jiffies_to_msecs 0 memory m ≡ (
          if ltb (length text) 2048 then some (text, length text + 1, length text + 1) else none))
        × (mp1_read decimal jiffies_to_msecs (length text + 1) memory' m
            ≡ some ([], 0, length text + 1))
  unfolding mp1_read
  mp1_read-text_of memory memory' e es m h = (
    elim (Bool-cases (ltb (length (text_of (e ∷ es))) 2048)) [
      | inl fits ↦
          rw (mp1_read, h, append_lines-text_of (e ∷ es) [] (omega arith), fits)
            (ap (λ n. some (text_of (e ∷ es), length (text_of (e ∷ es)) + 1, n)) (omega arith))
      | inr full ↦ rw (mp1_read, h, append_lines-text_of (e ∷ es) [] (omega arith), full)
    ],
    rw (mp1_read, lt→ltb 0 (length (text_of (e ∷ es)) + 1) (omega arith)),
  )
