-- ===== src/Mp4/Queue/Cells.antt =====
-- The nodes of MP4/queue.c as a list of cells: address and item of each node, from the head on.
use cs423_2017sp.Prelude.{
  ◌≡◌, ◌∙◌, ◌≢◌, refl, Bool, false, ◌||◌, Option, none, some, List, [], ◌∷◌, ◌++◌, arith, ◌==◌,
}
use cs423_2017sp.Prelude.Memory.{Ptr, null, Heap, write, write-ne}
use cs423_2017sp.Mp4.Queue.{QueueNode, node}

abbrev pub Cells : Type 0 → Type 0
Cells A = List (Ptr × A)

module _ {A : Type 0} where
  abbrev pub first : Cells A → Ptr
  first [] = null
  first ((a, _) ∷ _) = a

  abbrev pub last : Cells A → Ptr
  last [] = null
  last ((a, _) ∷ []) = a
  last (_ ∷ c ∷ cs) = last (c ∷ cs)

  abbrev pub has : Ptr → Cells A → Bool
  has p [] = false
  has p ((a, _) ∷ cs) = (p == a) || has p cs

  abbrev pub items : Cells A → List A
  items [] = []
  items ((_, x) ∷ cs) = x ∷ items cs

  -- Each cell is a node of the heap that leads to the next one, and no address occurs twice.
  abbrev pub Linked : Heap (QueueNode A) → Cells A → Type 0
  Linked h [] = Unit
  Linked h ((a, x) ∷ cs) =
      (a ≢ null) × (h a ≡ some (node x (first cs))) × (has a cs ≡ false) × Linked h cs

  -- A write elsewhere leaves the cells linked.
  pub Linked-write :
      (h : Heap (QueueNode A)) (p : Ptr) (c : Option (QueueNode A)) (cs : Cells A)
      → has p cs ≡ false
      → Linked h cs
      → Linked (write h p c) cs
  Linked-write h p c [] out l = tt
  Linked-write h p c ((a, x) ∷ cs) out l =
      (l.0, ground arith, l.2, Linked-write h p c cs (ground arith) l.3)

  pub items-append : (cs ds : Cells A) → items (cs ++ ds) ≡ items cs ++ items ds
  items-append [] ds = refl
  items-append ((a, x) ∷ cs) ds = λ i. x ∷ items-append cs ds i

  pub last-append : (cs : Cells A) (p : Ptr) (x : A) → last (cs ++ (p, x) ∷ []) ≡ p
  last-append [] p x = refl
  last-append (c ∷ []) p x = refl
  last-append (c ∷ d ∷ cs) p x = last-append (d ∷ cs) p x

  pub last-ne-null :
      (h : Heap (QueueNode A)) (c : Ptr × A) (cs : Cells A)
      → Linked h (c ∷ cs)
      → last (c ∷ cs) ≢ null
  last-ne-null h (a, x) [] l = l.0
  last-ne-null h (a, x) (c ∷ cs) l = last-ne-null h c cs l.3

  -- The last cell is a node with no successor.
  pub last-load :
      (h : Heap (QueueNode A)) (c : Ptr × A) (cs : Cells A)
      → Linked h (c ∷ cs)
      → (y : A) × (h (last (c ∷ cs)) ≡ some (node y null))
  last-load h (a, x) [] l = (x, l.1)
  last-load h (a, x) (c ∷ cs) l = last-load h c cs l.3

  pub has-last : (c : Ptr × A) (cs : Cells A) (p : Ptr) → has p (c ∷ cs) ≡ false → p ≢ last (c ∷ cs)
  has-last (a, x) [] p out = ground arith
  has-last (a, x) (c ∷ cs) p out = has-last c cs p (ground arith)

  pub has-append :
      (cs : Cells A) (p q : Ptr) (x : A)
      → has p cs ≡ false
      → p ≢ q
      → has p (cs ++ (q, x) ∷ []) ≡ false
  has-append [] p q x out ne = ground arith
  has-append ((a, y) ∷ cs) p q x out ne = ground (arith, has-append cs p q x (ground arith) ne)

  -- Writing the successor of the last node appends the new one.
  pub Linked-append :
      (h : Heap (QueueNode A)) (c : Ptr × A) (cs : Cells A) (nd : Ptr) (x y : A)
      → Linked h (c ∷ cs)
      → nd ≢ null
      → has nd (c ∷ cs) ≡ false
      → h nd ≡ some (node x null)
      → h (last (c ∷ cs)) ≡ some (node y null)
      → Linked (write h (last (c ∷ cs)) (some (node y nd))) ((c ∷ cs) ++ (nd, x) ∷ [])
  Linked-append h (a, z) [] nd x y l ok out new old =
      (l.0, ground arith, ground arith, (ok, ground arith, refl, tt))
  Linked-append h (a, z) (c ∷ cs) nd x y l ok out new old = (
    l.0,
    write-ne h _ (has-last c cs a l.2) ∙ l.1,
    has-append (c ∷ cs) a nd x l.2 (ground arith),
    Linked-append h c cs nd x y l.3 ok (ground arith) new old,
  )

  -- A cell's address is in use, so a fresh address is none of the cells.
  pub not-has_of_none :
      (h : Heap (QueueNode A)) (p : Ptr) (cs : Cells A)
      → Linked h cs
      → h p ≡ none
      → has p cs ≡ false
  not-has_of_none h p [] l free = refl
  not-has_of_none h p ((a, x) ∷ cs) l free = ground (arith, not-has_of_none h p cs l.3 free)
