-- ===== src/Mp3/Profiler/Capacity.antt =====
-- How many samples fit into the buffer of MP3/mp3.c.
use cs423_2017sp.Prelude.{
  ℕ, suc, ◌+◌, ◌*◌, ◌≤◌, ◌≡◌, ◌∙◌, refl, true, Option, none, some, List, [], ◌∷◌, arith, leb, ltb,
  length, is_some, Bool-cases, inl, inr, if◌then◌else◌, ◌==◌, lt→ltb, leb→le, ◌<◌,
}
use cs423_2017sp.Mp3.Profiler.{
  Processes, Profiler, buffer_words, store, store_all, sample, usage, mp_work_func,
}

-- The words of a list stand in the buffer from an index on.
abbrev pub Words : (ℕ → ℕ) → ℕ → List ℕ → Type 0
Words buf a [] = Unit
Words buf a (w ∷ ws) = (buf a ≡ w) × Words buf (suc a) ws

-- The words follow what was in the buffer.
pub record Stored (ws : List ℕ) (p p' : Profiler) : Type 0 where
  pub ptr : p'.mem_buf_ptr ≡ p.mem_buf_ptr + length ws
  pub words : Words p'.mem_buf p.mem_buf_ptr ws
  pub before : (i : ℕ) → i < p.mem_buf_ptr → p'.mem_buf i ≡ p.mem_buf i
  pub behind : (i : ℕ) → p.mem_buf_ptr + length ws ≤ i → p'.mem_buf i ≡ p.mem_buf i
  pub tasks : p'.tasks ≡ p.tasks

-- One word is stored.
abbrev stored : ℕ → Profiler → Profiler
stored w p = record p {
  mem_buf = λ i. if i == p.mem_buf_ptr then w else p.mem_buf i;
  mem_buf_ptr = suc p.mem_buf_ptr;
}

store_lem : (w : ℕ) (p : Profiler) → p.mem_buf_ptr < buffer_words → store w p ≡ some (stored w p)
unfolding store
store_lem w p room = rw (lt→ltb p.mem_buf_ptr buffer_words room)

pub store_all-Stored :
    (ws : List ℕ) (p : Profiler)
    → p.mem_buf_ptr + length ws ≤ buffer_words
    → (p' : Profiler) × (store_all ws p ≡ some p') × Stored ws p p'
unfolding store_all
store_all-Stored [] p fits = (
  p,
  refl,
  record {
    ptr = omega arith;
    words = tt;
    before = λ i h. refl;
    behind = λ i h. refl;
    tasks = refl;
  },
)
store_all-Stored (w ∷ ws) p fits =
    let (p', run, st) = store_all-Stored ws (stored w p) (omega arith) in
    (
      p',
      rw (store_all, store_lem w p (omega arith)) run,
      record {
        ptr = omega (arith, st.ptr);
        words = (st.before p.mem_buf_ptr (omega arith) ∙ ground arith, st.words);
        before = λ i h. st.before i (omega arith) ∙ ground arith;
        behind = λ i h. st.behind i (omega arith) ∙ ground arith;
        tasks = st.tasks;
      },
    )

store_all-full :
    (ws : List ℕ) (p : Profiler)
    → p.mem_buf_ptr ≤ buffer_words
    → buffer_words < p.mem_buf_ptr + length ws
    → store_all ws p ≡ none
unfolding store_all store
store_all-full [] p h k = absurd (omega arith)
store_all-full (w ∷ ws) p h k = elim (Bool-cases (ltb p.mem_buf_ptr buffer_words)) [
  | inl room ↦
      rw (store_all, store_lem w p (ground arith))
        (store_all-full ws (stored w p) (ground arith) (omega arith))
  | inr full ↦ rw (store_all, store, full)
]

-- The work function runs once for each reading of `jiffies`.
unfoldable pub work_all : (ℕ → ℕ) → List ℕ → Profiler → Processes → Option (Profiler × Processes)
work_all to_msecs [] p ps = some (p, ps)
work_all to_msecs (jiffies ∷ js) p ps = elim (mp_work_func to_msecs jiffies p ps) [
  | none ↦ none
  | some (p', ps') ↦ work_all to_msecs js p' ps'
]

work-fits :
    (to_msecs : ℕ → ℕ) (jiffies : ℕ) (p : Profiler) (ps : Processes)
    → p.mem_buf_ptr + 4 ≤ buffer_words
    → (p' : Profiler) × (ps' : Processes) × (mp_work_func to_msecs jiffies p ps ≡ some (p', ps'))
      × (p'.mem_buf_ptr ≡ p.mem_buf_ptr + 4)
unfolding mp_work_func
work-fits to_msecs jiffies p ps fits =
    let (p', run, st) = store_all-Stored (sample to_msecs jiffies (usage p ps).0) p (omega arith) in
    (record p' { pending = true }, (usage p ps).1, rw (mp_work_func, run), st.ptr)

work-full :
    (to_msecs : ℕ → ℕ) (jiffies : ℕ) (p : Profiler) (ps : Processes)
    → p.mem_buf_ptr ≤ buffer_words
    → buffer_words < p.mem_buf_ptr + 4
    → mp_work_func to_msecs jiffies p ps ≡ none
unfolding mp_work_func
work-full to_msecs jiffies p ps h k =
    rw (mp_work_func, store_all-full (sample to_msecs jiffies (usage p ps).0) p h (omega arith))

work_all-runs :
    (to_msecs : ℕ → ℕ) (js : List ℕ) (p : Profiler) (ps : Processes)
    → p.mem_buf_ptr ≤ buffer_words
    → is_some (work_all to_msecs js p ps) ≡ leb (p.mem_buf_ptr + 4 * length js) buffer_words
unfolding work_all
work_all-runs to_msecs [] p ps h = ground arith
work_all-runs to_msecs (j ∷ js) p ps h = elim (Bool-cases (leb (p.mem_buf_ptr + 4) buffer_words)) [
  | inl fits ↦
      let (p', ps', run, ptr) = work-fits to_msecs j p ps (leb→le _ _ fits) in
      rw (work_all, run)
        (ground (arith, ptr, work_all-runs to_msecs js p' ps' (ground (arith, ptr))))
  | inr full ↦ rw (work_all, work-full to_msecs j p ps h (ground arith)) (ground arith)
]

-- The buffer holds 16384 samples, and nothing stops the profiler there: as long as the pointer is
-- at 0, as `mp_init` leaves it, the work function can run `n` times without writing behind the
-- buffer exactly if `n` is at most 16384.
pub work_all_iff :
    (to_msecs : ℕ → ℕ) (js : List ℕ) (p : Profiler) (ps : Processes)
    → p.mem_buf_ptr ≡ 0
    → is_some (work_all to_msecs js p ps) ≡ leb (length js) 16384
work_all_iff to_msecs js p ps e = work_all-runs to_msecs js p ps (omega arith) ∙ ground arith
