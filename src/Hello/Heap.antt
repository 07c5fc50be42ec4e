-- ===== src/Hello/Heap.antt =====
-- Where the protocols keep the object of a connection: `new` and `delete` in HelloBye2 and
-- HelloBye3, a memory pool of DPDK in HelloBye3MemPool. Both are the environment's, and so a
-- parameter.
use moon_state.Prelude.{
  ℕ, ◌≡◌, ◌≢◌, ◌%◌, ◌+◌, ◌∙◌, ap, inl, inr, arith, true, false, Option-cases, if_true, if_false,
  Option, none, some, ◌==◌, if◌then◌else◌,
}
use mathlib.Core.Option
use moon_state.Fault.{Result, ok, err, uncaught, dangling}
use moon_state.BufArray.{Ptr}
use moon_state.Headers.Bytes.{Bytes}

-- Objects of the type `O` in a memory of the type `H`. `create` gives `none` when there is no
-- memory left, and `load` gives it for a pointer that is not an object's.
pub record Heap (O H : Type 0) : Type 0 where
  pub create : O → H → Option (Ptr × H)
  pub load : Ptr → H → Option O
  pub save : Ptr → O → H → H
  pub drop : Ptr → H → H
  pub fresh : (o : O) (h h' : H) (p : Ptr) → create o h ≡ some (p, h') → load p h ≡ none
  pub load-create :
      (o : O) (h h' : H) (p q : Ptr)
      → create o h ≡ some (p, h')
      → load q h' ≡ (if q == p then some o else load q h)
  pub load-save :
      (o : O) (h : H) (p q : Ptr)
      → load q (save p o h) ≡ (if q == p then Option.map (λ _. o) (load p h) else load q h)
  pub load-drop : (h : H) (p q : Ptr) → load q (drop p h) ≡ (if q == p then none else load q h)

-- The memory that a protocol works on: its objects, the bytes of the packets, the lengths of
-- their data, and the numbers that `rand` returns, of which `randoms` have been used.
pub record World (H : Type 0) : Type 0 where
  pub heap : H
  pub mem : Bytes
  pub len : Ptr → ℕ
  pub random : ℕ → ℕ
  pub randoms : ℕ

-- `rand() % n`
unfoldable pub random_below : {H : Type 0} → ℕ → World H → ℕ × World H
random_below n w = (w.random w.randoms % n, record w { randoms = w.randoms + 1 })

module _ {O H : Type 0} (heap : Heap O H) where
  -- A use of the object behind the pointer.
  unfoldable pub object : Ptr → H → Result O
  object p h = elim (heap.load p h) [ none ↦ err dangling | some o ↦ ok o ]

  -- A new object. Where there is no memory left, an exception leaves the caller.
  unfoldable pub allocate : O → World H → Result (Ptr × World H)
  allocate o w = elim (heap.create o w.heap) [
    | none ↦ err uncaught
    | some (p, h) ↦ ok (p, record w { heap = h })
  ]

  -- What a pointer leads to after a write, or a deletion, through the same or another one.
  differs : (q p : ℕ) → q ≢ p → (q == p) ≡ false
  differs q p ne = ground arith

  equals : (p : ℕ) → (p == p) ≡ true
  equals p = ground arith

  module _ (h : H) (p : Ptr) where
    pub save_self : (o o' : O) → heap.load p h ≡ some o' → heap.load p (heap.save p o h) ≡ some o
    save_self o o' live =
        heap.load-save o h p p ∙ if_true _ _ _ (equals p) ∙ ap (Option.map (λ _. o)) live

    pub save-other : (o : O) (q : Ptr) → q ≢ p → heap.load q (heap.save p o h) ≡ heap.load q h
    save-other o q ne = heap.load-save o h p q ∙ if_false _ _ _ (differs q p ne)

    pub drop_self : heap.load p (heap.drop p h) ≡ none
    drop_self = heap.load-drop h p p ∙ if_true _ _ _ (equals p)

    pub drop-other : (q : Ptr) → q ≢ p → heap.load q (heap.drop p h) ≡ heap.load q h
    drop-other q ne = heap.load-drop h p q ∙ if_false _ _ _ (differs q p ne)

  pub create_self :
      (o : O) (h h' : H) (p : Ptr) → heap.create o h ≡ some (p, h') → heap.load p h' ≡ some o
  create_self o h h' p e = heap.load-create o h h' p p e ∙ if_true _ _ _ (equals p)

  pub create-other :
      (o : O) (h h' : H) (p q : Ptr)
      → heap.create o h ≡ some (p, h')
      → q ≢ p
      → heap.load q h' ≡ heap.load q h
  create-other o h h' p q e ne = heap.load-create o h h' p q e ∙ if_false _ _ _ (differs q p ne)

  -- An allocation that returned.
  pub allocate_ok :
      (o : O) (w w' : World H) (p : Ptr)
      → allocate o w ≡ ok (p, w')
      → (heap.load p w'.heap ≡ some o) × (heap.load p w.heap ≡ none)
  unfolding allocate
  allocate_ok o w w' p e = elim (Option-cases (heap.create o w.heap)) [
    | inl none_left ↦ absurd (ground arith)
    | inr ((q, h), made) ↦
        let same : p ≡ q = ground arith in
        let heap_is : w'.heap ≡ h = ground arith in
        rw (same, heap_is) (create_self o w.heap h q made, heap.fresh o w.heap h q made)
  ]
