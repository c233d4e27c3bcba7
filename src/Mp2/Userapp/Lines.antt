-- ===== src/Mp2/Userapp/Lines.antt =====
-- The lines of the file of MP2/mp2.c, as `mp_read` writes them and MP2/userapp.c reads them.
use cs423_2017sp.Prelude.{
  ℕ, zero, suc, ◌+◌, ◌-◌, ◌≤◌, ◌<◌, ◌≡◌, refl, sym, ap, Bool, true, false, Option, some, List, [],
  ◌∷◌, ◌++◌, arith, leb, ◌==◌, length, length-append, All, append-nil, append_assoc, if◌then◌else◌,
}
use cs423_2017sp.Prelude.Int.{ℤ, pos, negsuc}
use cs423_2017sp.Mp2.Task.{MpTask, Scheduler, sleeping}
use cs423_2017sp.Mp2.Proc.{
  state_number, status_line, task_line, append_tasks, first_buffer, mp_read,
}
use cs423_2017sp.Mp2.Userapp.{fgets, strings_equal, status_loop, read_status}

-- Characters behind the 0 and the line feed.
abbrev pub Plain : List ℕ → Type 0
Plain cs = All (λ c. 10 < c) cs

pub Plain-append : (xs ys : List ℕ) → Plain xs → Plain ys → Plain (xs ++ ys)
Plain-append [] ys h k = k
Plain-append (x ∷ xs) ys h k = (h.0, Plain-append xs ys h.1 k)

fgets_line :
    (n : ℕ) (xs rest : List ℕ)
    → Plain xs
    → length xs < n
    → fgets n (xs ++ 10 ∷ rest) ≡ (xs ++ 10 ∷ [], rest)
unfolding fgets
fgets_line zero xs rest plain room = absurd (omega arith)
fgets_line (suc n) [] rest plain room = refl
fgets_line (suc n) (x ∷ xs) rest plain room =
    let more : (x == 10) ≡ false = ground (arith, plain.0) in
    rw (fgets, more, fgets_line n xs rest plain.1 (omega arith)) refl

pub strings_equal_refl : (xs : List ℕ) → strings_equal xs xs ≡ true
unfolding strings_equal
strings_equal_refl [] = refl
strings_equal_refl (x ∷ xs) = ground (arith, strings_equal_refl xs)

status_loop_line :
    (fuel : ℕ) (target xs rest : List ℕ)
    → Plain xs
    → length xs < 254
    → status_loop (suc fuel) target (xs ++ 10 ∷ rest) ≡ (
        if strings_equal (xs ++ 10 ∷ []) target then some (pos 0) else status_loop fuel target rest)
unfolding status_loop
status_loop_line fuel target [] rest plain room =
    rw (status_loop, fgets_line 254 [] rest plain room) refl
status_loop_line fuel target (x ∷ xs) rest plain room =
    rw (status_loop, fgets_line 254 (x ∷ xs) rest plain room) refl

-- A line without its line feed.
abbrev body : (pid state period processing_time : List ℕ) → List ℕ
body p s q r =
    p ++ 91 ∷ (s ++ 93 ∷ 58 ∷ 32 ∷ (q ++ 32 ∷ 109 ∷ 115 ∷ 44 ∷ 32 ∷ (r ++ 32 ∷ 109 ∷ 115 ∷ [])))

body_line : (p s q r : List ℕ) → status_line p s q r ≡ body p s q r ++ 10 ∷ []
body_line p s q r = simp append_assoc refl

Plain-body : (p s q r : List ℕ) → Plain p → Plain s → Plain q → Plain r → Plain (body p s q r)
Plain-body p s q r hp hs hq hr =
    let last = Plain-append r (32 ∷ 109 ∷ 115 ∷ []) hr (ground arith) in
    let time =
      Plain-append q (32 ∷ 109 ∷ 115 ∷ 44 ∷ 32 ∷ (r ++ 32 ∷ 109 ∷ 115 ∷ [])) hq
        (ground (arith, last)) in
    let state =
      Plain-append s (93 ∷ 58 ∷ 32 ∷ (q ++ 32 ∷ 109 ∷ 115 ∷ 44 ∷ 32 ∷ (r ++ 32 ∷ 109 ∷ 115 ∷ [])))
        hs (ground (arith, time)) in
    Plain-append p _ hp (omega arith, state)

either :
    (a b : Bool) (x y : Option ℤ)
    → (if a then x else (if b then x else y)) ≡ (if (if a then true else b) then x else y)
either true b x y = refl
either false b x y = refl

if_some : (b : Bool) (x y : ℤ) → (if b then some x else some y) ≡ some (if b then x else y)
if_some true x y = refl
if_some false x y = refl

-- The 0 behind the text is a line of its own for `fgets`, and an empty string.
zero_differs : (xs : List ℕ) → Plain xs → strings_equal (0 ∷ []) (xs ++ 10 ∷ []) ≡ false
unfolding strings_equal
zero_differs [] plain = refl
zero_differs (x ∷ xs) plain = ground (arith, plain.0)

status_loop_end :
    (n : ℕ) (target : List ℕ)
    → strings_equal (0 ∷ []) target ≡ false
    → status_loop (suc (suc n)) target (0 ∷ []) ≡ some (negsuc 0)
unfolding status_loop fgets
status_loop_end n target differs = rw (status_loop, fgets, differs) refl

module _ (decimal : ℤ → List ℕ) where
  -- The lines of a list of tasks.
  abbrev pub text_of : List MpTask → List ℕ
  text_of [] = []
  text_of (t ∷ ts) = task_line decimal t ++ text_of ts

  -- Whether one of them reads like another line.
  abbrev pub listed : List ℕ → List MpTask → Bool
  listed target [] = false
  listed target (t ∷ ts) =
      if strings_equal (task_line decimal t) target then true else listed target ts

  -- Lines that `fgets` reads whole.
  abbrev pub Short : List MpTask → Type 0
  Short ts = All (λ t. length (task_line decimal t) < 255) ts

  append_tasks-text_of :
      (ts : List MpTask) (buf : List ℕ)
      → length (buf ++ text_of ts) < 2048
      → append_tasks decimal ts buf ≡ some (buf ++ text_of ts)
  unfolding append_tasks
  append_tasks-text_of [] buf fits = ap some (sym (append-nil buf))
  append_tasks-text_of (t ∷ ts) buf fits =
      let same = append_assoc buf (task_line decimal t) (text_of ts) in
      let fits' : length (buf ++ task_line decimal t ++ text_of ts) < 2048 = rw same fits in
      let room : leb (length (buf ++ task_line decimal t) + 1) 2048 ≡ true =
        ground (arith, fits', length-append (buf ++ task_line decimal t) (text_of ts)) in
      rw (append_tasks, room, ← same) (append_tasks-text_of ts (buf ++ task_line decimal t) fits')

  first_buffer-nonempty :
      (memory : List ℕ) (ts : List MpTask) → 0 < length ts → first_buffer decimal memory ts ≡ []
  first_buffer-nonempty memory [] some_task = absurd (omega arith)
  first_buffer-nonempty memory (t ∷ ts) some_task = refl

  pub mp_read-text_of :
      (memory : List ℕ) (s : Scheduler)
      → 0 < length s.tasks
      → length (text_of s.tasks) < 2048
      → mp_read decimal 0 memory s
        ≡ some (text_of s.tasks ++ 0 ∷ [], 0 + (length (text_of s.tasks) + 1))
  unfolding mp_read
  mp_read-text_of memory s some_task fits =
      rw
        (
          mp_read,
          first_buffer-nonempty memory s.tasks some_task,
          append_tasks-text_of s.tasks [] fits,
        )
        refl

module _ (decimal : ℤ → List ℕ) (plain : (z : ℤ) → Plain (decimal z)) where
  one_line :
      (n : ℕ) (target rest : List ℕ) (t : MpTask)
      → length (task_line decimal t) < 255
      → status_loop (suc n) target (task_line decimal t ++ rest) ≡ (
          if strings_equal (task_line decimal t) target
          then some (pos 0)
          else status_loop n target rest)
  one_line n target rest t short =
      let b : List ℕ =
        body (decimal t.pid) (decimal (pos (state_number t.task_state))) (decimal t.period)
          (decimal t.processing_time) in
      let same : task_line decimal t ≡ b ++ 10 ∷ [] = body_line _ _ _ _ in
      let good : Plain b = Plain-body _ _ _ _ (plain _) (plain _) (plain _) (plain _) in
      let room : length b < 254 = omega (arith, short, ap length same, length-append b (10 ∷ [])) in
      rw (same, append_assoc b (10 ∷ []) rest) (status_loop_line n target b rest good room)

  status_loop-lines :
      (n : ℕ) (target tail : List ℕ) (ts : List MpTask)
      → Short decimal ts
      → status_loop (length ts + n) target (text_of decimal ts ++ tail)
        ≡ (if listed decimal target ts then some (pos 0) else status_loop n target tail)
  status_loop-lines n target tail [] short = ap (λ k. status_loop k target tail) (omega arith)
  status_loop-lines n target tail (t ∷ ts) short =
      let fuel : length (t ∷ ts) + n ≡ suc (length ts + n) = omega arith in
      let first = one_line (length ts + n) target (text_of decimal ts ++ tail) t short.0 in
      let others = status_loop-lines n target tail ts short.1 in
      rw (fuel, append_assoc (task_line decimal t) (text_of decimal ts) tail, first, others)
        (either (strings_equal (task_line decimal t) target) (listed decimal target ts)
          (some (pos 0)) (status_loop n target tail))

  length-text_of : (ts : List MpTask) → length ts ≤ length (text_of decimal ts)
  length-text_of [] = omega arith
  length-text_of (t ∷ ts) =
      let b : List ℕ =
        body (decimal t.pid) (decimal (pos (state_number t.task_state))) (decimal t.period)
          (decimal t.processing_time) in
      let same : task_line decimal t ≡ b ++ 10 ∷ [] = body_line _ _ _ _ in
      omega (
        arith,
        length-text_of ts,
        ap length same,
        length-append b (10 ∷ []),
        length-append (task_line decimal t) (text_of decimal ts),
      )

  line-differs : (t : MpTask) → strings_equal (0 ∷ []) (task_line decimal t) ≡ false
  line-differs t =
      rw
        (body_line (decimal t.pid) (decimal (pos (state_number t.task_state))) (decimal t.period)
          (decimal t.processing_time))
        (zero_differs _ (Plain-body _ _ _ _ (plain _) (plain _) (plain _) (plain _)))

  -- What `read_status` finds in the text of some tasks.
  pub read_status-listed :
      (t : MpTask) (ts : List MpTask)
      → decimal (pos 0) ≡ 48 ∷ []
      → t.task_state ≡ sleeping
      → Short decimal ts
      → read_status
          (decimal t.pid)
          (decimal t.period)
          (decimal t.processing_time)
          (text_of decimal ts ++ 0 ∷ [])
        ≡ some (if listed decimal (task_line decimal t) ts then pos 0 else negsuc 0)
  unfolding read_status
  read_status-listed t ts zero_is asleep short =
      let target : status_line (decimal t.pid) (48 ∷ []) (decimal t.period)
            (decimal t.processing_time)
          ≡ task_line decimal t =
        rw (asleep, zero_is) refl in
      let n = length (text_of decimal ts) - length ts in
      let fuel : suc (length (text_of decimal ts ++ 0 ∷ [])) ≡ length ts + suc (suc n) =
        omega (arith, length-text_of ts, length-append (text_of decimal ts) (0 ∷ [])) in
      rw
        (
          read_status,
          target,
          fuel,
          status_loop-lines (suc (suc n)) (task_line decimal t) (0 ∷ []) ts short,
          status_loop_end n (task_line decimal t) (line-differs t),
        )
        (if_some (listed decimal (task_line decimal t) ts) (pos 0) (negsuc 0))
