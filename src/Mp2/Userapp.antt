-- ===== src/Mp2/Userapp.antt =====
-- The application of MP2/userapp.c: what it writes to the file of MP2/mp2.c, and how it finds its
-- registration in what it reads.
pub mod Lines
pub mod Handshake
pub mod Main
mod Tests
use cs423_2017sp.Prelude.{
  ltb, ◌*◌, ◌^◌, ℕ, zero, suc, Bool, true, false, ◌&&◌, Option, none, some, List, [], ◌∷◌, ◌++◌,
  ◌==◌, length, if◌then◌else◌,
}
use cs423_2017sp.Prelude.Int.{ℤ, pos, negsuc}
use cs423_2017sp.Mp2.Proc.{status_line}

-- `reg`, `yield` and `unreg`: the text that `fprintf` writes.
abbrev pub reg : (pid period process_time : List ℕ) → List ℕ
reg pid period process_time =
    82 ∷ 44 ∷ 32 ∷ (pid ++ 44 ∷ 32 ∷ (period ++ 44 ∷ 32 ∷ (process_time ++ 10 ∷ [])))

abbrev pub yield : (pid : List ℕ) → List ℕ
yield pid = 89 ∷ 44 ∷ 32 ∷ pid

abbrev pub unreg : (pid : List ℕ) → List ℕ
unreg pid = 68 ∷ 44 ∷ 32 ∷ pid

-- `fgets` of at most `n` characters: what it stores, and the rest of the file.
unfoldable pub fgets : ℕ → List ℕ → List ℕ × List ℕ
fgets zero cs = ([], cs)
fgets (suc n) [] = ([], [])
fgets (suc n) (c ∷ cs) =
    let (got, rest) = fgets n cs in if c == 10 then (c ∷ [], cs) else (c ∷ got, rest)

-- `strcmp` of two buffers finds no difference up to the first 0.
unfoldable pub strings_equal : List ℕ → List ℕ → Bool
strings_equal [] [] = true
strings_equal [] (d ∷ ds) = d == 0
strings_equal (c ∷ cs) [] = c == 0
strings_equal (c ∷ cs) (d ∷ ds) =
    let rest = strings_equal cs ds in if c == d then (if c == 0 then true else rest) else false

-- The loop of `read_status`, on fuel for each line and the end of the file.
unfoldable pub status_loop : ℕ → (target input : List ℕ) → Option ℤ
status_loop zero target input = none
status_loop (suc fuel) target [] = some (negsuc 0)
status_loop (suc fuel) target (c ∷ cs) =
    let (buffer, rest) = fgets 254 (c ∷ cs) in
    let again = status_loop fuel target rest in
    if strings_equal buffer target then some (pos 0) else again

-- `read_status` on what the file holds.
unfoldable pub read_status : (pid period process_time input : List ℕ) → Option ℤ
read_status pid period process_time input =
    status_loop (suc (length input)) (status_line pid (48 ∷ []) period process_time) input

-- The loop of `factorial` for an argument that is not negative; `none` is an `int` that overflows.
unfoldable pub factorial : (fact val : ℕ) → Option ℕ
factorial zero val = some val
factorial (suc fact) val =
    let rest = factorial fact (val * fact) in if ltb (val * fact) (2 ^ 31) then rest else none
