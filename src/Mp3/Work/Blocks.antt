-- ===== src/Mp3/Work/Blocks.antt =====
-- The blocks that the workload of MP3/work.c allocates and frees.
use mathlib.Core.List.{reverse, reverse-append}
use cs423_2017sp.Prelude.{
  ℕ, zero, suc, ◌+◌, ◌≤◌, ◌<◌, ◌≡◌, ◌≢◌, ◌∙◌, refl, sym, ap, true, false, Option, none, some, List,
  [], ◌∷◌, ◌++◌, arith, ◌==◌, ltb, append-nil, append_assoc, Bool-cases, inl, inr, if◌then◌else◌,
}
use cs423_2017sp.Prelude.Memory.{Ptr, null}
use cs423_2017sp.Mp3.Work.{free_back, free_all, allocate}

module _ (malloc : ℕ → Ptr) where
  -- The first `n` blocks that `malloc` returned.
  abbrev pub blocks : ℕ → List Ptr
  blocks zero = []
  blocks (suc n) = blocks n ++ (malloc n ∷ [])

  -- The first `n` entries of `buffer` are these blocks.
  abbrev pub Allocated : ℕ → (ℕ → Ptr) → Type 0
  Allocated n buffer = (j : ℕ) → j < n → (buffer j ≡ malloc j) × (malloc j ≢ null)

  kept-Allocated :
      (i : ℕ) (b : Ptr) (buffer : ℕ → Ptr)
      → Allocated i buffer
      → Allocated i (λ j. if j == i then b else buffer j)
  kept-Allocated i b buffer before j below =
      let other : (j == i) ≡ false = ground arith in
      let (is, ok) = before j below in (rw other is, ok)

  one_more-Allocated :
      (i : ℕ) (buffer : ℕ → Ptr)
      → malloc i ≢ null
      → Allocated i buffer
      → Allocated (suc i) (λ j. if j == i then malloc i else buffer j)
  one_more-Allocated i buffer there before j below = elim (Bool-cases (j == i)) [
    | inl last ↦ let same : j ≡ i = ground arith in (rw (last, same) refl, rw same there)
    | inr other ↦ kept-Allocated i (malloc i) buffer before j (ground arith)
  ]

  -- The `i`-th block is the first that `malloc` refused.
  abbrev pub OutOf : ℕ → (ℕ → Ptr) → ℕ → Type 0
  OutOf n buffer i = (i < n) × (malloc i ≡ null) × Allocated i buffer

  -- What `allocate` returned for `n` blocks.
  unfoldable pub Result : ℕ → (ℕ → Ptr) × Option ℕ → Type 0
  Result n (buffer, none) = Allocated n buffer
  Result n (buffer, some i) = OutOf n buffer i

  earlier : (n : ℕ) (buffer : ℕ → Ptr) (m : ℕ) → m ≤ n → Allocated n buffer → Allocated m buffer
  earlier n buffer m less all j below = all j (omega arith)

  pub allocate-Result :
      (n left i : ℕ) (buffer : ℕ → Ptr)
      → i + left ≡ n
      → n ≤ 1024
      → Allocated i buffer
      → (r : (ℕ → Ptr) × Option ℕ) × (allocate left i malloc buffer ≡ some r) × Result n r
  unfolding allocate Result
  allocate-Result n zero i buffer end fits before =
      ((buffer, none), refl, earlier i buffer n (omega arith) before)
  allocate-Result n (suc left) i buffer end fits before =
      let buffer' : ℕ → Ptr = λ j. if j == i then malloc i else buffer j in
      let inside : ltb i 1024 ≡ true = ground arith in
      elim (Bool-cases (malloc i == null)) [
        | inl fails ↦ (
          (buffer', some i),
          rw (allocate, inside, fails) refl,
          (omega arith, ground arith, kept-Allocated i (malloc i) buffer before),
        )
        | inr there ↦
            let (r, run, result) =
              allocate-Result n left (suc i) buffer' (omega arith) fits
                (one_more-Allocated i buffer (ground arith) before) in
            (r, rw (allocate, inside, there) run, result)
      ]

  pub free_back-blocks :
      (n : ℕ) (buffer : ℕ → Ptr) → Allocated n buffer → free_back n buffer ≡ reverse (blocks n)
  free_back-blocks zero buffer all = refl
  free_back-blocks (suc n) buffer all =
      let here : buffer n ≡ malloc n = (all n (omega arith)).0 in
      let rest = free_back-blocks n buffer (earlier (suc n) buffer n (omega arith) all) in
      (λ k. here k ∷ rest k) ∙ sym (reverse-append (blocks n) (malloc n ∷ []))

  -- `free_all` from the `i`-th entry on, after the entries before it.
  free_all-append :
      (n left i : ℕ) (buffer : ℕ → Ptr)
      → i + left ≡ n
      → Allocated n buffer
      → blocks i ++ free_all left i buffer ≡ blocks n
  free_all-append n zero i buffer end all =
      let last : i ≡ n = omega arith in append-nil (blocks i) ∙ ap blocks last
  free_all-append n (suc left) i buffer end all =
      let here : buffer i ≡ malloc i = (all i (omega arith)).0 in
      let rest = free_all-append n left (suc i) buffer (omega arith) all in
      rw here (sym (append_assoc (blocks i) (malloc i ∷ []) (free_all left (suc i) buffer)) ∙ rest)

  pub free_all-blocks :
      (n : ℕ) (buffer : ℕ → Ptr) → Allocated n buffer → free_all n 0 buffer ≡ blocks n
  free_all-blocks n buffer all = free_all-append n n 0 buffer (omega arith) all
