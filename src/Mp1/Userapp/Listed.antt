-- ===== src/Mp1/Userapp/Listed.antt =====
-- The application of MP1/userapp.c finds itself on the list.
use cs423_2017sp.Prelude.{
  ℕ, zero, suc, ◌+◌, ◌-◌, ◌<◌, ◌≡◌, ◌≢◌, refl, sym, ap, true, false, Option, none, some, List, [],
  ◌∷◌, ◌++◌, ◌==◌, ltb, set, length, arith, All, All-append, inl, inr, Option-cases, append_assoc,
}
use cs423_2017sp.Prelude.Int.{ℤ, pos, bits64}
use cs423_2017sp.Mp1.Registry.{
  Entry, Times, get_cpu_use, Module, mp1_write, timer_callback, bottom_fn, line,
}
use cs423_2017sp.Mp1.Registry.Update.{On, update_entries-On}
use cs423_2017sp.Mp1.Registry.Report.{text_of, mp1_read-text_of}
use cs423_2017sp.Mp1.Userapp.{
  Event, written, timed, updated, handle, happen, up_to_0, call_kernel, main,
}

-- The process exists whenever the bottom half runs.
abbrev pub Lives : ℕ → Event → Type 0
Lives mypid (written _ _) = Unit
Lives mypid (timed _ _) = Unit
Lives mypid (updated times) = get_cpu_use times (pos mypid) ≢ none

-- The time of its entry after an event, and after several.
abbrev pub newer : ℕ → ℕ → Option ℕ → ℕ
newer mypid cpu none = cpu
newer mypid cpu (some c) = c

abbrev pub time_after : ℕ → ℕ → List Event → ℕ
time_after mypid cpu [] = cpu
time_after mypid cpu (written _ _ ∷ es) = time_after mypid cpu es
time_after mypid cpu (timed _ _ ∷ es) = time_after mypid cpu es
time_after mypid cpu (updated times ∷ es) =
    time_after mypid (newer mypid cpu (get_cpu_use times (pos mypid))) es

abbrev pub own : ℕ → ℕ → Entry
own mypid cpu = record { cpu_time = cpu; pid = pos mypid }

handle-updated-On :
    (mypid cpu : ℕ) (times : Times) (m : Module)
    → get_cpu_use times (pos mypid) ≢ none
    → On (own mypid cpu) m.head
    → On (own mypid (newer mypid cpu (get_cpu_use times (pos mypid)))) (bottom_fn times m).head
unfolding bottom_fn
handle-updated-On mypid cpu times m lives on = elim (Option-cases (get_cpu_use times (pos mypid))) [
  | inl gone ↦ absurd (lives gone)
  | inr (c, runs) ↦ rw runs (update_entries-On times m.head (own mypid cpu) c on runs)
]

happen-On :
    (mypid : ℕ) (es : List Event) (cpu : ℕ) (m : Module)
    → All (Lives mypid) es
    → On (own mypid cpu) m.head
    → On (own mypid (time_after mypid cpu es)) (happen es m).head
unfolding happen handle mp1_write timer_callback
happen-On mypid [] cpu m lives on = on
happen-On mypid (written parsed stale ∷ es) cpu m lives on =
    happen-On mypid es cpu (mp1_write parsed stale m) lives.1 (inr on)
happen-On mypid (timed jiffies period ∷ es) cpu m lives on =
    happen-On mypid es cpu (timer_callback jiffies period m) lives.1 on
happen-On mypid (updated times ∷ es) cpu m lives on =
    happen-On mypid es (newer mypid cpu (get_cpu_use times (pos mypid))) (bottom_fn times m) lives.1
      (handle-updated-On mypid cpu times m lives.0 on)

-- A text without the character 0.
abbrev pub No0 : List ℕ → Type 0
No0 cs = All (λ c. c ≢ 0) cs

up_to_0-set :
    (text : List ℕ) (k : ℕ) → No0 text → k ≡ length text → up_to_0 (set (text ++ 0 ∷ []) k 0) ≡ text
up_to_0-set [] zero h e = refl
up_to_0-set [] (suc k) h e = absurd (omega (arith, e))
up_to_0-set (c ∷ cs) zero h e = absurd (omega (arith, e))
up_to_0-set (c ∷ cs) (suc k) h e =
    let other : (c == 0) ≡ false = ground (arith, h.0) in
    rw other (ap (λ rest. c ∷ rest) (up_to_0-set cs k h.1 (omega (arith, e))))

module _ (decimal : ℕ → List ℕ) (jiffies_to_msecs : ℕ → ℕ) where
  On-text_of :
      (e : Entry) (es : List Entry)
      → On e es
      → (before after : List ℕ) × (text_of decimal jiffies_to_msecs es
          ≡ before ++ (line decimal jiffies_to_msecs e ++ after))
  On-text_of e [] on = absurd on
  On-text_of e (f ∷ fs) (inl same) = ([], text_of decimal jiffies_to_msecs fs, rw same refl)
  On-text_of e (f ∷ fs) (inr on) =
      let (before, after, split) = On-text_of e fs on in
      (
        line decimal jiffies_to_msecs f ++ before,
        after,
        rw split (sym (append_assoc (line decimal jiffies_to_msecs f) before _)),
      )

  module _ (no_0 : (n : ℕ) → No0 (decimal n)) where
    text_of-All : (es : List Entry) → No0 (text_of decimal jiffies_to_msecs es)
    text_of-All [] = tt
    text_of-All (e ∷ es) =
        All-append (λ c. c ≢ 0) (line decimal jiffies_to_msecs e)
          (text_of decimal jiffies_to_msecs es)
          (All-append (λ c. c ≢ 0) (decimal (bits64 e.pid)) _ (no_0 (bits64 e.pid))
            (
              (λ z. omega (arith, z)),
              (
                (λ z. omega (arith, z)),
                All-append (λ c. c ≢ 0) (decimal (jiffies_to_msecs e.cpu_time)) _
                    (no_0 (jiffies_to_msecs e.cpu_time)) unit,
              ),
            ))
          (text_of-All es)
      where
        unit : No0 (32 ∷ 109 ∷ 115 ∷ 10 ∷ [])
        unit = (
          (λ z. omega (arith, z)),
          ((λ z. omega (arith, z)), ((λ z. omega (arith, z)), ((λ z. omega (arith, z)), tt))),
        )

    call_kernel-text_of :
        (memory : List ℕ) (m : Module) (es : List Entry) (e : Entry)
        → m.head ≡ es
        → On e es
        → length (text_of decimal jiffies_to_msecs es) < 2048
        → call_kernel decimal jiffies_to_msecs memory m ≡ some (text_of decimal jiffies_to_msecs es)
    unfolding call_kernel
    call_kernel-text_of memory m [] e head on fits = absurd on
    call_kernel-text_of memory m (f ∷ fs) e head on fits =
        let text = text_of decimal jiffies_to_msecs (f ∷ fs) in
        let (reads, _) = mp1_read-text_of decimal jiffies_to_msecs memory [] f fs m head in
        let small : ltb (length text) 2048 ≡ true = ground (arith, fits) in
        let some_bytes : (length text + 1 == 0) ≡ false = ground arith in
        let inside : ltb (length text + 1 - 1) 2048 ≡ true = ground (arith, fits) in
        let shown = up_to_0-set text (length text + 1 - 1) (text_of-All (f ∷ fs)) (omega arith) in
        rw (call_kernel, reads, small, some_bytes, inside) (ap some shown)

    -- The application finds itself in what it reads. Let `kstrtol` read back what `fprintf` wrote,
    -- let no number have a 0 in its text, and let the process exist whenever the bottom half of the
    -- module runs. Then, whatever processes were registered before and whatever is written and
    -- updated meanwhile, `call_kernel` prints all that the module reports, if that has less than
    -- 2048 characters, and one of the lines has the pid of the application, with its CPU time at
    -- the last run of the bottom half, or 1337 if there was none.
    pub main-line :
        (kstrtol : List ℕ → Option ℤ) (mypid : ℕ) (stale : ℤ) (meanwhile : List Event)
        (memory : List ℕ) (m : Module)
        → kstrtol (decimal mypid) ≡ some (pos mypid)
        → All (Lives mypid) meanwhile
        → let after = happen meanwhile (mp1_write (some (pos mypid)) stale m) in
          length (text_of decimal jiffies_to_msecs after.head) < 2048
          → (before behind : List ℕ) × (main decimal jiffies_to_msecs kstrtol mypid stale meanwhile
                memory m
              ≡ some (text_of decimal jiffies_to_msecs after.head))
            × (text_of decimal jiffies_to_msecs after.head
                ≡ before
                  ++ (line decimal jiffies_to_msecs (own mypid (time_after mypid 1337 meanwhile))
                      ++ behind))
    unfolding main mp1_write
    main-line kstrtol mypid stale meanwhile memory m scans lives fits =
        let m' = mp1_write (some (pos mypid)) stale m in
        let on = happen-On mypid meanwhile 1337 m' lives (inl refl) in
        let (before, behind, split) =
          On-text_of (own mypid (time_after mypid 1337 meanwhile)) (happen meanwhile m').head on in
        (
          before,
          behind,
          rw (main, scans) (call_kernel-text_of memory (happen meanwhile m') _ _ refl on fits),
          split,
        )
