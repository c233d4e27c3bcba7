-- ===== src/Mp3/Reports.antt =====
-- The profiler of MP3/mp3.c and the monitor of MP3/monitor.c on the buffer that `dev_mmap` shares.
use mathlib.Core.Path.{subst}
use cs423_2017sp.Prelude.{
  ℕ, zero, suc, ◌+◌, ◌*◌, ◌≤◌, ◌<◌, ◌≡◌, ◌≢◌, ◌∙◌, refl, sym, true, none, some, List, [], ◌∷◌, ◌++◌,
  arith, ltb, ◌==◌, Bool-cases, inl, inr, length, length-append, All,
}
use cs423_2017sp.Mp3.Profiler.{Processes, Profiler, buffer_words, sample, usage, mp_work_func}
use cs423_2017sp.Mp3.Profiler.Capacity.{Words, Stored, store_all-Stored, work_all}
use cs423_2017sp.Mp3.Monitor.{bufd_max, cleared, Printing, monitor, lines_from, monitor_window}

module _ (to_msecs : ℕ → ℕ) where
  -- The samples of the runs of the work function at these times.
  abbrev pub sampled : List ℕ → Profiler → Processes → List ℕ
  sampled [] p ps = []
  sampled (j ∷ js) p ps =
      let rest : List ℕ = elim (mp_work_func to_msecs j p ps) [
        | none ↦ []
        | some (p', ps') ↦ sampled js p' ps'
      ] in
      sample to_msecs j (usage p ps).0 ++ rest

  work-Stored :
      (j : ℕ) (p : Profiler) (ps : Processes)
      → p.mem_buf_ptr + 4 ≤ buffer_words
      → (p' : Profiler) × (ps' : Processes) × (mp_work_func to_msecs j p ps ≡ some (p', ps'))
        × Stored (sample to_msecs j (usage p ps).0) p p'
  unfolding mp_work_func
  work-Stored j p ps fits =
      let (p', run, st) = store_all-Stored (sample to_msecs j (usage p ps).0) p (omega arith) in
      (
        record p' { pending = true },
        (usage p ps).1,
        rw (mp_work_func, run),
        record {
          ptr = st.ptr;
          words = st.words;
          before = st.before;
          behind = st.behind;
          tasks = st.tasks;
        },
      )

Words-append :
    (buf : ℕ → ℕ) (a b : ℕ) (xs ys : List ℕ)
    → Words buf a xs
    → Words buf b ys
    → b ≡ a + length xs
    → Words buf a (xs ++ ys)
Words-append buf a b [] ys h k e = subst (λ c. Words buf c ys) (omega (arith, e)) k
Words-append buf a b (x ∷ xs) ys h k e =
    (h.0, Words-append buf (suc a) b xs ys h.1 k (omega (arith, e)))

Words-alike :
    (buf buf' : ℕ → ℕ) (a : ℕ) (xs : List ℕ)
    → ((i : ℕ) → a ≤ i → i < a + length xs → buf' i ≡ buf i)
    → Words buf a xs
    → Words buf' a xs
Words-alike buf buf' a [] same h = tt
Words-alike buf buf' a (x ∷ xs) same h = (
  same a (omega arith) (omega arith) ∙ h.0,
  Words-alike buf buf' (suc a) xs (λ i from to. same i (omega arith) (omega arith)) h.1,
)

module _ (to_msecs : ℕ → ℕ) where
  work_all-Stored :
      (js : List ℕ) (p : Profiler) (ps : Processes)
      → p.mem_buf_ptr + 4 * length js ≤ buffer_words
      → (p' : Profiler) × (ps' : Processes) × (work_all to_msecs js p ps ≡ some (p', ps'))
        × Stored (sampled to_msecs js p ps) p p'
        × (length (sampled to_msecs js p ps) ≡ 4 * length js)
  unfolding work_all
  work_all-Stored [] p ps fits = (
    p,
    ps,
    refl,
    record {
      ptr = omega arith;
      words = tt;
      before = λ i h. refl;
      behind = λ i h. refl;
      tasks = refl;
    },
    omega arith,
  )
  work_all-Stored (j ∷ js) p ps fits =
      let (p₁, ps₁, run₁, st₁) = work-Stored to_msecs j p ps (omega arith) in
      let (p₂, ps₂, run₂, st₂, long) = work_all-Stored js p₁ ps₁ (omega (arith, st₁.ptr)) in
      let four = sample to_msecs j (usage p ps).0 in
      let rest = sampled to_msecs js p₁ ps₁ in
      let both : sampled to_msecs (j ∷ js) p ps ≡ four ++ rest = rw run₁ refl in
      let size : length (four ++ rest) ≡ 4 * length (j ∷ js) =
        omega (arith, length-append four rest, long) in
      (
        p₂,
        ps₂,
        rw (work_all, run₁) run₂,
        rw both (record {
          ptr = omega (arith, st₁.ptr, st₂.ptr, length-append four rest);
          words =
              Words-append p₂.mem_buf p.mem_buf_ptr p₁.mem_buf_ptr four rest
                (Words-alike p₁.mem_buf p₂.mem_buf p.mem_buf_ptr four
                  (λ i from to. st₂.before i (omega (arith, st₁.ptr))) st₁.words)
                st₂.words st₁.ptr;
          before = λ i h. st₂.before i (omega (arith, st₁.ptr)) ∙ st₁.before i h;
          behind = λ i h.
              st₂.behind i (omega (arith, st₁.ptr, h, length-append four rest))
              ∙ st₁.behind i (omega (arith, h, length-append four rest));
          tasks = st₂.tasks ∙ st₁.tasks;
        }),
        subst (λ ws. length ws ≡ 4 * length (j ∷ js)) (sym both) size,
      )

lines_from-Words :
    (buf : ℕ → ℕ) (n a : ℕ) (ws : List ℕ)
    → Words buf a ws
    → length ws ≡ 4 * n
    → lines_from buf a n ≡ ws
lines_from-Words buf zero a [] h e = refl
lines_from-Words buf zero a (w ∷ ws) h e = absurd (omega (arith, e))
lines_from-Words buf (suc n) a (w ∷ x ∷ y ∷ z ∷ ws) h e =
    let four : suc (suc (suc (suc a))) ≡ a + 4 = omega arith in
    let rest =
      lines_from-Words buf n (a + 4) ws (subst (λ b. Words buf b ws) four h.1.1.1.1)
        (omega (arith, e)) in
    λ i. h.0 i ∷ h.1.0 i ∷ h.1.1.0 i ∷ h.1.1.1.0 i ∷ rest i
lines_from-Words buf (suc n) a [] h e = absurd (omega (arith, e))
lines_from-Words buf (suc n) a (w ∷ []) h e = absurd (omega (arith, e))
lines_from-Words buf (suc n) a (w ∷ x ∷ []) h e = absurd (omega (arith, e))
lines_from-Words buf (suc n) a (w ∷ x ∷ y ∷ []) h e = absurd (omega (arith, e))

Words-All :
    (buf : ℕ → ℕ) (a : ℕ) (ws : List ℕ)
    → Words buf a ws
    → All (λ w. w ≢ cleared) ws
    → (i : ℕ) → a ≤ i
    → i < a + length ws
    → buf i ≢ cleared
Words-All buf a [] h good i from to = absurd (omega arith)
Words-All buf a (w ∷ ws) h good i from to = elim (Bool-cases (i == a)) [
  | inl here ↦ ground (arith, here, h.0, good.0)
  | inr there ↦ Words-All buf (suc a) ws h.1 good.1 i (ground (arith, there)) (omega arith)
]

-- Every run of the monitor reports what was sampled since the last one. Let the first 48000 words
-- of the buffer be `-1`, as a run of the monitor leaves them, and let the work function run at
-- least once, at the times `js`, with room for its samples within these words and no word of them
-- `-1`. Then the monitor ends after as many lines, prints just these samples in order, and leaves
-- the first 48000 words `-1` again, with the profiler's pointer behind them.
pub reports :
    (to_msecs : ℕ → ℕ) (js : List ℕ) (p : Profiler) (ps : Processes)
    → ((j : ℕ) → j < bufd_max → p.mem_buf j ≡ cleared)
    → 0 < length js
    → p.mem_buf_ptr + 4 * length js ≤ bufd_max
    → All (λ w. w ≢ cleared) (sampled to_msecs js p ps)
    → (p' : Profiler) × (ps' : Processes) × (s : Printing) × (work_all to_msecs js p ps
        ≡ some (p', ps'))
      × (monitor p'.mem_buf ≡ some (s, length js))
      × (s.printed ≡ sampled to_msecs js p ps)
      × ((j : ℕ) → j < bufd_max → s.buf j ≡ cleared)
      × (p'.mem_buf_ptr ≡ p.mem_buf_ptr + 4 * length js)
reports to_msecs js p ps drained some_run room good =
    let (p', ps', run, st, long) = work_all-Stored to_msecs js p ps (omega arith) in
    let ws = sampled to_msecs js p ps in
    let (s, prints, printed, after) =
      monitor_window p'.mem_buf p.mem_buf_ptr (length js)
        (λ j lt. st.before j lt ∙ drained j (omega arith))
        (λ j from to.
          Words-All p'.mem_buf p.mem_buf_ptr ws st.words good j from (omega (arith, to, long)))
        (λ part. st.behind _ (omega (arith, long)) ∙ drained _ part) room some_run in
    (
      p',
      ps',
      s,
      run,
      prints,
      printed ∙ lines_from-Words p'.mem_buf (length js) p.mem_buf_ptr ws st.words long,
      λ j lt. elim (Bool-cases (ltb j p.mem_buf_ptr)) [
        | inl low ↦
            let kept = st.before j (ground (arith, low)) ∙ drained j lt in
            ground (arith, low, after j, kept)
        | inr high ↦ elim (Bool-cases (ltb j (p.mem_buf_ptr + 4 * length js))) [
          | inl inside ↦ ground (arith, high, inside, after j)
          | inr outside ↦
              let kept = st.behind j (ground (arith, outside, long)) ∙ drained j lt in
              ground (arith, outside, after j, kept)
        ]
      ],
      omega (arith, st.ptr, long),
    )
