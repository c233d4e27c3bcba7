-- ===== src/Mp1/Tests.antt =====
-- Tests of the model of MP1/mp1.c, and its theorems at a concrete list.
use cs423_2017sp.Prelude.{
  Option, ◌-◌, ◌++◌, arith, ℕ, ◌+◌, ◌≡◌, refl, true, none, some, List, [], ◌∷◌, length, ltb,
  if◌then◌else◌, All,
}
use cs423_2017sp.Prelude.Int.{ℤ, pos, eqb_ℤ}
use cs423_2017sp.Mp1.Registry.{
  Entry, Times, get_cpu_use, Module, mp1_init, mp1_write, update_entries, bottom_fn, append_lines,
  mp1_read,
}
use cs423_2017sp.Mp1.Registry.{line}
use cs423_2017sp.Mp1.Userapp.{updated, handle, happen, call_kernel, main}
use cs423_2017sp.Mp1.Userapp.Listed.{own, time_after, main-line}
use cs423_2017sp.Mp1.Registry.Update.{Registered, IsUpdated, bottom_fn-IsUpdated}
use cs423_2017sp.Mp1.Registry.Report.{text_of, mp1_read-text_of}

-- Process 7 has run for 12 jiffies; no other exists.
abbrev times : Times
times pid = if eqb_ℤ pid (pos 7) then some 12 else none

abbrev entry : ℤ → Entry
entry pid = record { cpu_time = 1337; pid = pid }

abbrev two_entries : Module
two_entries = record { head = entry (pos 7) ∷ entry (pos 8) ∷ []; timer = some 5; queued = true }

-- One digit is enough here.
abbrev digit : ℕ → List ℕ
digit n = (48 + n) ∷ []

write_test :
    (mp1_write none (pos 8) (mp1_write (some (pos 7)) (pos 0) (mp1_init 0 5))).head
    ≡ entry (pos 8) ∷ entry (pos 7) ∷ []
unfolding mp1_write mp1_init
write_test = refl

update_test : (bottom_fn times two_entries).head ≡ record { cpu_time = 12; pid = pos 7 } ∷ []
unfolding bottom_fn update_entries get_cpu_use
update_test = refl

bottom_fn-IsUpdated_example :
    All (λ e. get_cpu_use times e.pid ≡ some e.cpu_time) (bottom_fn times two_entries).head
    × All (Registered two_entries.head) (bottom_fn times two_entries).head
    × All (IsUpdated times (bottom_fn times two_entries).head) two_entries.head
    × ((bottom_fn times (bottom_fn times two_entries)).head ≡ (bottom_fn times two_entries).head)
bottom_fn-IsUpdated_example = bottom_fn-IsUpdated times two_entries

read_test :
    mp1_read digit (λ n. 3) 0 [] (record two_entries { head = entry (pos 7) ∷ [] })
    ≡ some (55 ∷ 58 ∷ 32 ∷ 51 ∷ 32 ∷ 109 ∷ 115 ∷ 10 ∷ [], 9, 9)
unfolding mp1_read append_lines
read_test = refl

mp1_read-text_of_example :
    (mp1_read digit (λ n. 3) 0 [] two_entries ≡ (
      if ltb (length (text_of digit (λ n. 3) two_entries.head)) 2048
      then some (
        text_of digit (λ n. 3) two_entries.head,
        length (text_of digit (λ n. 3) two_entries.head) + 1,
        length (text_of digit (λ n. 3) two_entries.head) + 1,
      )
      else none))
    × (mp1_read digit (λ n. 3) (length (text_of digit (λ n. 3) two_entries.head) + 1) [] two_entries
        ≡ some ([], 0, length (text_of digit (λ n. 3) two_entries.head) + 1))
mp1_read-text_of_example =
    mp1_read-text_of digit (λ n. 3) [] [] (entry (pos 7)) (entry (pos 8) ∷ []) two_entries refl

-- The application registers as 7, and the bottom half runs one time.
abbrev parse : List ℕ → Option ℤ
parse [] = none
parse (c ∷ cs) = some (pos (c - 48))

main_test :
    main digit (λ n. 3) parse 7 (pos 0) (updated times ∷ []) [] two_entries
    ≡ some (55 ∷ 58 ∷ 32 ∷ 51 ∷ 32 ∷ 109 ∷ 115 ∷ 10 ∷ 55 ∷ 58 ∷ 32 ∷ 51 ∷ 32 ∷ 109 ∷ 115 ∷ 10 ∷ [])
unfolding main call_kernel mp1_read append_lines happen handle bottom_fn update_entries mp1_write
    get_cpu_use
main_test = refl

main-line_example :
    (before behind : List ℕ) × (main digit
        (λ n. 3)
        parse
        7
        (pos 0)
        (updated times ∷ [])
        []
        two_entries
      ≡ some (
          text_of digit
            (λ n. 3)
            (happen (updated times ∷ []) (mp1_write (some (pos 7)) (pos 0) two_entries)).head))
    × (text_of digit
          (λ n. 3)
          (happen (updated times ∷ []) (mp1_write (some (pos 7)) (pos 0) two_entries)).head
        ≡ before
          ++ (line digit (λ n. 3) (own 7 (time_after 7 1337 (updated times ∷ []))) ++ behind))
unfolding happen handle bottom_fn mp1_write update_entries get_cpu_use
main-line_example =
    main-line digit (λ n. 3) (λ n. ((λ e. omega (arith, e)), tt)) parse 7 (pos 0)
      (updated times ∷ []) [] two_entries refl ((λ e. cc e), tt) (omega arith)
