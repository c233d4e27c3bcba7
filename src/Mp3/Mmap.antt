-- ===== src/Mp3/Mmap.antt =====
-- `dev_mmap` of MP3/mp3.c, which maps the buffer of the profiler into a process page by page.
use cs423_2017sp.Prelude.{
  ℕ, zero, suc, ◌+◌, ◌-◌, ◌*◌, ◌%◌, ◌^◌, ◌<◌, ◌≡◌, ◌∙◌, ap, Bool, true, false, Option, none, some,
  List, [], ◌∷◌, ◌++◌, arith, ltb, ◌==◌, if◌then◌else◌, append-nil, append_assoc, Bool-cases, inl,
  inr,
}
use cs423_2017sp.Prelude.Int.{ℤ, pos, negsuc}

-- A page of the process that shows a frame: its address and the frame's number.
abbrev pub Mapping : Type 0
Mapping = ℕ × ℕ

module _ (vmalloc_to_pfn : ℕ → ℕ) (remap_pfn_range : Mapping → Bool) where
  -- The loop, on fuel; `none` is the end of the fuel. The result is that of `dev_mmap` with the
  -- pages that were mapped. `remap_pfn_range` says whether the call fails.
  unfoldable pub map_pages : ℕ → (start pos size : ℕ) → List Mapping → Option (ℤ × List Mapping)
  map_pages zero start buf size done = none
  map_pages (suc fuel) start buf size done =
      let page : Mapping = (start, vmalloc_to_pfn buf) in
      let rest =
        map_pages fuel ((start + 4096) % 2 ^ 64) ((buf + 4096) % 2 ^ 64)
          ((size + 2 ^ 64 - 4096) % 2 ^ 64) (done ++ page ∷ []) in
      if size == 0
      then some (pos 0, done)
      else if remap_pfn_range page
      then some (negsuc 10, done)
      else rest

  -- Fuel for the 128 pages of the buffer and the last test. -22 is -EINVAL, -11 is -EAGAIN.
  unfoldable pub dev_mmap : (vm_start vm_end mem_buf : ℕ) → Option (ℤ × List Mapping)
  dev_mmap vm_start vm_end mem_buf =
      let size = (vm_end + 2 ^ 64 - vm_start) % 2 ^ 64 in
      if ltb (128 * 4096) size then some (negsuc 21, []) else map_pages 129 vm_start mem_buf size []

  -- The pages of the process beside those of the buffer, in order.
  abbrev pub page_list : (vm_start mem_buf pages : ℕ) → List Mapping
  page_list vm_start mem_buf zero = []
  page_list vm_start mem_buf (suc n) =
      (vm_start, vmalloc_to_pfn mem_buf) ∷ page_list (vm_start + 4096) (mem_buf + 4096) n

  -- The result and the mapped pages, if the pages of a list are mapped in order up to the first
  -- failure.
  abbrev pub outcome : List Mapping → ℤ × List Mapping
  outcome [] = (pos 0, [])
  outcome (m ∷ ms) =
      if remap_pfn_range m then (negsuc 10, []) else ((outcome ms).0, m ∷ (outcome ms).1)

  map_pages-outcome :
      (fuel start buf n : ℕ) (done : List Mapping)
      → n < fuel
      → start + n * 4096 < 2 ^ 64
      → buf + n * 4096 < 2 ^ 64
      → map_pages fuel start buf (n * 4096) done
        ≡ some ((outcome (page_list start buf n)).0, done ++ (outcome (page_list start buf n)).1)
  unfolding map_pages
  map_pages-outcome zero start buf n done enough low high = absurd (omega arith)
  map_pages-outcome (suc fuel) start buf zero done enough low high = rw (append-nil done)
  map_pages-outcome (suc fuel) start buf (suc n) done enough low high =
      elim (Bool-cases (remap_pfn_range (start, vmalloc_to_pfn buf))) [
        | inl fails ↦ rw (map_pages, more, fails, append-nil done)
        | inr maps ↦
            rw (map_pages, more, maps, next_start, next_buf, next_size)
              (map_pages-outcome fuel (start + 4096) (buf + 4096) n
                  (done ++ (start, vmalloc_to_pfn buf) ∷ []) (omega arith) (omega arith)
                  (omega arith)
                ∙ ap (λ ms. some ((outcome (page_list (start + 4096) (buf + 4096) n)).0, ms))
                    (append_assoc done _ _))
      ]
    where
      more : (suc n * 4096 == 0) ≡ false
      more = ground arith

      next_start : (start + 4096) % 2 ^ 64 ≡ start + 4096
      next_start = omega arith

      next_buf : (buf + 4096) % 2 ^ 64 ≡ buf + 4096
      next_buf = omega arith

      next_size : (suc n * 4096 + 2 ^ 64 - 4096) % 2 ^ 64 ≡ n * 4096
      next_size = omega arith

  -- For a range of whole pages, as the kernel passes it, that ends below 2 ^ 64 as the buffer does,
  -- the loop ends. If the range has more than the 128 pages of the buffer, the result is -EINVAL
  -- and nothing is mapped. Otherwise the pages of the range are mapped in order to those of the
  -- buffer: all of them with the result 0, or those before the first call that fails with the
  -- result -EAGAIN.
  pub dev_mmap-outcome :
      (vm_start mem_buf pages : ℕ)
      → vm_start + pages * 4096 < 2 ^ 64
      → mem_buf + 128 * 4096 < 2 ^ 64
      → dev_mmap vm_start (vm_start + pages * 4096) mem_buf
        ≡ some
            (if ltb 128 pages then (negsuc 21, []) else outcome (page_list vm_start mem_buf pages))
  unfolding dev_mmap
  dev_mmap-outcome vm_start mem_buf pages low high = elim (Bool-cases (ltb 128 pages)) [
    | inl too_many ↦ rw (dev_mmap, size, too_many, too_large too_many)
    | inr fits ↦
        rw (dev_mmap, size, fits, small_enough fits)
          (map_pages-outcome 129 vm_start mem_buf pages [] (ground arith) low (ground arith))
  ]
    where
      size : (vm_start + pages * 4096 + 2 ^ 64 - vm_start) % 2 ^ 64 ≡ pages * 4096
      size = omega arith

      too_large : ltb 128 pages ≡ true → ltb (128 * 4096) (pages * 4096) ≡ true
      too_large h = ground arith

      small_enough : ltb 128 pages ≡ false → ltb (128 * 4096) (pages * 4096) ≡ false
      small_enough h = ground arith
