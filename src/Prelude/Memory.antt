-- ===== src/Prelude/Memory.antt =====
-- A heap of objects of one type at addresses. Address 0 is NULL; what stands at an address that
-- holds no object cannot be read or written.
use Prim.Native.Nat.{ℕ}
use mathlib.Core.Bool.{Bool}
use mathlib.Core.Option.{Option, none}
use mathlib.Core.Path.{◌≡◌}
use mathlib.Core.Logic.{◌≢◌}
use native.Mathlib.Omega.{arith}
use cs423_2017sp.Prelude.Tests.{◌==◌, if◌then◌else◌}

abbrev pub Ptr : Type 0
Ptr = ℕ

abbrev pub null : Ptr
null = 0

abbrev pub Heap : Type 0 → Type 0
Heap A = Ptr → Option A

module _ {A : Type 0} where
  -- `some a` puts an object at the address, `none` gives the address back.
  abbrev pub write : Heap A → Ptr → Option A → Heap A
  write h p c a = if a == p then c else h a

  -- `*p`; `none` is a fault, at NULL and at an address that holds no object.
  abbrev pub load : Heap A → Ptr → Option A
  load h p = if p == null then none else h p

  pub write-ne : (h : Heap A) {p a : Ptr} (c : Option A) → a ≢ p → write h p c a ≡ h a
  write-ne h c ne = ground arith

  pub load-some :
      (h : Heap A) (p : Ptr) {a : A} → p ≢ null → h p ≡ Option.some a → load h p ≡ Option.some a
  load-some h p ok e = ground arith

pub not-null : {p : Ptr} → p ≢ null → (p == null) ≡ Bool.false
not-null ok = ground arith
