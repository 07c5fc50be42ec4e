-- ===== src/Hello/Moves.antt =====
-- The conversion of a connection's object, and what a state function with one leaves behind.
use moon_state.Prelude.{ℕ, ◌≡◌, ◌≢◌, refl, ◌∙◌, sym, arith, none, some}
use moon_state.Fault.{ok}
use moon_state.BufArray.{Ptr}
use moon_state.Machine.Types.{Iface}
use moon_state.Hello.Heap.{
  Heap, World, allocate, save_self, save-other, drop_self, drop-other, create_self, create-other,
}
use moon_state.Headers.Bytes.{Bytes}
use moon_state.Hello.Effects.{put_world, put_mem, put_heap, drop_object}
use moon_state.Hello.Rules.{Silent}
use moon_state.Machine.Iface.{free_pkt, transition, set_state_id}
use moon_state.Hello.Convert.{keep_object, convert}

-- There is memory for the object `o`.
abbrev pub Room : {O H : Type 0} → Heap O H → O → H → Type 0
Room {H = H} heap o h = (p : Ptr) × (h' : H) × (heap.create o h ≡ some (p, h'))

-- There is always memory for another object.
unfoldable pub Roomy : {O H : Type 0} → Heap O H → Type 0
Roomy {O = O} {H = H} heap =
    (o : O) (h : H) → (p : Ptr) × (h' : H) × (heap.create o h ≡ some (p, h'))

module _ {O K F H : Type 0} (heap : Heap O H) (i : Iface K F (World H)) where
  -- The packet is to be sent back with an answer as `P` says, and the connection has the new object
  -- `o`.
  pub record Handed (P : Bytes → Type 0) (o : O) (n : ℕ) (j : Iface K F (World H)) : Type 0 where
    pub conn_id : j.conn_id ≡ i.conn_id
    pub bufs : j.bufs ≡ i.bufs
    pub timers : j.timers ≡ i.timers
    pub immediate_transition : j.immediate_transition ≡ i.immediate_transition
    pub state : j.state.state ≡ n
    pub decided : j.send_pkt ≡ i.send_pkt
    pub len : j.world.len ≡ i.world.len
    pub live : heap.load j.state.state_data j.world.heap ≡ some o
    pub unused : heap.load j.state.state_data i.world.heap ≡ none
    pub gone : heap.load i.state.state_data j.world.heap ≡ none
    pub others :
        (q : Ptr)
        → q ≢ i.state.state_data
        → q ≢ j.state.state_data
        → heap.load q j.world.heap ≡ heap.load q i.world.heap
    pub answered : P j.world.mem

module _ {O H : Type 0} (heap : Heap O H) (old : Ptr) (before kept new : O) (h h' : H) (p : Ptr)
    (live : heap.load old h ≡ some before)
    (made : heap.create new (heap.save old kept h) ≡ some (p, h')) where
  pub not_old : p ≢ old
  not_old e =
      let free : heap.load p (heap.save old kept h) ≡ none =
        heap.fresh new (heap.save old kept h) h' p made in
      let used : heap.load old (heap.save old kept h) ≡ some kept =
        save_self heap h old kept before live in
      absurd (cc)

  pub new_live : heap.load p (heap.drop old h') ≡ some new
  new_live =
      drop-other heap h' old p not_old ∙ create_self heap new (heap.save old kept h) h' p made

  pub new_unused : heap.load p h ≡ none
  new_unused =
      sym (save-other heap h old kept p not_old) ∙ heap.fresh new (heap.save old kept h) h' p made

  pub same_others : (q : Ptr) → q ≢ old → q ≢ p → heap.load q (heap.drop old h') ≡ heap.load q h
  same_others q a b =
      drop-other heap h' old q a
      ∙ create-other heap new (heap.save old kept h) h' p q made b
      ∙ save-other heap h old kept q a

module _ {O K F H : Type 0} (heap : Heap O H) where
  -- What `convert` returns when there is memory.
  abbrev pub converted : Ptr → H → Iface K F (World H) → Iface K F (World H)
  converted p h' k = record k {
    state = record (k.state) { state_data = p };
    world = put_heap (heap.drop k.state.state_data h') (record (k.world) { heap = h' });
  }

  pub convert_ok :
      (o : O) (k : Iface K F (World H)) (p : Ptr) (h' : H)
      → heap.create o k.world.heap ≡ some (p, h')
      → convert heap o k ≡ ok (converted p h' k)
  unfolding convert allocate
  convert_ok o k p h' made = ground (arith, made)

-- A connection that broke the protocol: no answer, and its object, with the fields `kept`, is
-- deleted.
module _ {O K F H : Type 0} (heap : Heap O H) (data_at : Ptr → ℕ) (terminate : ℕ) (pkt : Ptr)
    (i : Iface K F (World H)) (kept : O) where
  abbrev pub broken_off : Iface K F (World H)
  broken_off = drop_object heap (keep_object heap kept (free_pkt (transition terminate i)))

  pub broken_off-Silent : Silent heap data_at terminate pkt i broken_off
  unfolding drop_object keep_object put_world put_heap free_pkt transition set_state_id
  broken_off-Silent = record {
    keeps = record {
      conn_id = refl;
      bufs = refl;
      timers = refl;
      immediate_transition = refl;
      len = refl;
      others = λ q ne.
          drop-other heap (heap.save i.state.state_data kept i.world.heap) i.state.state_data q ne
          ∙ save-other heap i.world.heap i.state.state_data kept q ne;
    };
    state = refl;
    freed = refl;
    gone = drop_self heap (heap.save i.state.state_data kept i.world.heap) i.state.state_data;
    mem = refl;
  }

-- A connection that goes on: the answer is in the memory `m`, the object has the fields `kept`.
module _ {O K F H : Type 0} (heap : Heap O H) (i : Iface K F (World H)) (m : Bytes) (n : ℕ)
    (kept : O) where
  abbrev pub went_on : Iface K F (World H)
  went_on = keep_object heap kept (transition n (put_world (put_mem m i.world) i))

  pub convert-went_on :
      (new : O) (p : Ptr) (h' : H)
      → heap.create new (heap.save i.state.state_data kept i.world.heap) ≡ some (p, h')
      → convert heap new went_on ≡ ok (converted heap p h' went_on)
  convert-went_on new p h' made = convert_ok heap new went_on p h' (at_heap made)
    where
      at_heap :
          heap.create new (heap.save i.state.state_data kept i.world.heap) ≡ some (p, h')
          → heap.create new went_on.world.heap ≡ some (p, h')
      at_heap e = unfold keep_object put_world put_heap put_mem transition set_state_id in e

  pub went_on-Handed :
      (before new : O)
      → heap.load i.state.state_data i.world.heap ≡ some before
      → (p : Ptr) (h' : H)
      → heap.create new (heap.save i.state.state_data kept i.world.heap) ≡ some (p, h')
      → (P : Bytes → Type 0) → P m
      → Handed heap i P new n (converted heap p h' went_on)
  unfolding keep_object put_world put_heap put_mem transition set_state_id
  went_on-Handed before new live p h' made P answered = record {
    conn_id = refl;
    bufs = refl;
    timers = refl;
    immediate_transition = refl;
    state = refl;
    decided = refl;
    len = refl;
    live = new_live heap i.state.state_data before kept new i.world.heap h' p live made;
    unused = new_unused heap i.state.state_data before kept new i.world.heap h' p live made;
    gone = drop_self heap h' i.state.state_data;
    others = same_others heap i.state.state_data before kept new i.world.heap h' p live made;
    answered = answered;
  }
