-- ===== src/Hello/Sample.antt =====
-- A heap for the tests: the objects by their numbers, of which `next` have been given out.
use moon_state.Prelude.{ℕ, ◌+◌, ◌<◌, ◌≡◌, Option, none, some, arith, ltb, ◌==◌, if◌then◌else◌}
use mathlib.Core.Option
use moon_state.BufArray.{Ptr}
use moon_state.Hello.Heap.{Heap, World}
use moon_state.Headers.Bytes.{Bytes}
use moon_state.Hello.Turn.{IsBytes}

pub record Objects (O : Type 0) : Type 0 where
  pub at : ℕ → Option O
  pub next : ℕ

module _ {O : Type 0} where
  abbrev pub load : Ptr → Objects O → Option O
  load p h = if ltb p h.next then h.at p else none

  abbrev pub create : O → Objects O → Option (Ptr × Objects O)
  create o h =
      some (h.next, record { at = λ q. if q == h.next then some o else h.at q; next = h.next + 1 })

  abbrev pub save : Ptr → O → Objects O → Objects O
  save p o h = record h { at = λ q. if q == p then Option.map (λ _. o) (h.at q) else h.at q }

  abbrev pub drop : Ptr → Objects O → Objects O
  drop p h = record h { at = λ q. if q == p then none else h.at q }

  some_create :
      (o : O) (h h' : Objects O) (p : Ptr)
      → create o h ≡ some (p, h')
      → (h.next ≡ p)
        × (record { at = λ q. if q == h.next then some o else h.at q; next = h.next + 1 } ≡ h')
  some_create o h h' p e = (cc, cc)

  pub fresh : (o : O) (h h' : Objects O) (p : Ptr) → create o h ≡ some (p, h') → load p h ≡ none
  fresh o h h' p e = rw (← (some_create o h h' p e).0) below
    where
      below : load h.next h ≡ none
      below = ground arith

  pub load-create :
      (o : O) (h h' : Objects O) (p q : Ptr)
      → create o h ≡ some (p, h')
      → load q h' ≡ (if q == p then some o else load q h)
  load-create o h h' p q e = rw (← (some_create o h h' p e).0, ← (some_create o h h' p e).1) last
    where
      last :
          load q (record { at = λ q. if q == h.next then some o else h.at q; next = h.next + 1 })
          ≡ (if q == h.next then some o else load q h)
      last = ground arith

  pub load-save :
      (o : O) (h : Objects O) (p q : Ptr)
      → load q (save p o h) ≡ (if q == p then Option.map (λ _. o) (load p h) else load q h)
  load-save o h p q = ground arith

  pub load-drop :
      (h : Objects O) (p q : Ptr) → load q (drop p h) ≡ (if q == p then none else load q h)
  load-drop h p q = ground arith

  abbrev pub sample_heap : Heap O (Objects O)
  sample_heap = record {
    create = create;
    load = load;
    save = save;
    drop = drop;
    fresh = fresh;
    load-create = load-create;
    load-save = load-save;
    load-drop = load-drop;
  }

-- A packet whose data starts at 0, with a message behind headers of the usual size.
abbrev pub packet : ℕ → ℕ → ℕ → Bytes
packet role kind cookie a =
    if a == 14
    then 69
    else if a == 50
    then role
    else if a == 51
    then kind
    else if a == 52
    then cookie
    else 0

pub packet-IsBytes :
    (role kind cookie : ℕ)
    → role < 256
    → kind < 256
    → cookie < 256
    → IsBytes (packet role kind cookie)
packet-IsBytes role kind cookie r k c a = ground arith

-- The world with the object `o` behind the pointer 0.
abbrev pub world_of : {O : Type 0} → O → Bytes → World (Objects O)
world_of o m = record {
  heap = record { at = λ q. if q == 0 then some o else none; next = 1 };
  mem = m;
  len = λ p. 100;
  random = λ n. 300 + n;
  randoms = 0;
}
