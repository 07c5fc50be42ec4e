-- ===== src/Hello/Leaves.antt =====
-- The steps of a connection that leave the other connections' objects alone.
use moon_state.Prelude.{ℕ, Bool, false, ◌≡◌, refl}
use moon_state.Headers.Bytes.{Bytes}
use moon_state.Machine.Types.{Iface}
use moon_state.Machine.Iface.{free_pkt, transition, set_state_id}
use moon_state.Hello.Heap.{Heap, World}
use moon_state.Hello.Effects.{put_world, put_mem, put_heap}
use moon_state.Hello.Convert.{keep_object}

-- The packet is sent or not as `send` says, its
-- bytes are as `P` says, the state is `n` and the objects are those of `h`.
pub record Leaves {K F H : Type 0} (i : Iface K F (World H)) (P : Bytes → Type 0) (send : Bool)
    (n : ℕ) (h : H) (j : Iface K F (World H)) : Type 0 where
  pub conn_id : j.conn_id ≡ i.conn_id
  pub bufs : j.bufs ≡ i.bufs
  pub timers : j.timers ≡ i.timers
  pub immediate_transition : j.immediate_transition ≡ i.immediate_transition
  pub same_data : j.state.state_data ≡ i.state.state_data
  pub state : j.state.state ≡ n
  pub decided : j.send_pkt ≡ send
  pub len : j.world.len ≡ i.world.len
  pub heap : j.world.heap ≡ h
  pub mem : P j.world.mem

module _ {K F H : Type 0} (i : Iface K F (World H)) (n : ℕ) where
  pub transition-Leaves : Leaves i (λ m. m ≡ i.world.mem) i.send_pkt n i.world.heap (transition n i)
  unfolding transition set_state_id
  transition-Leaves = record {
    conn_id = refl;
    bufs = refl;
    timers = refl;
    immediate_transition = refl;
    same_data = refl;
    state = refl;
    decided = refl;
    len = refl;
    heap = refl;
    mem = refl;
  }

  pub freed-Leaves :
      Leaves i (λ m. m ≡ i.world.mem) false n i.world.heap (transition n (free_pkt i))
  unfolding transition set_state_id free_pkt
  freed-Leaves = record {
    conn_id = refl;
    bufs = refl;
    timers = refl;
    immediate_transition = refl;
    same_data = refl;
    state = refl;
    decided = refl;
    len = refl;
    heap = refl;
    mem = refl;
  }

  module _ (P : Bytes → Type 0) (m : Bytes) (good : P m) where
    pub written-Leaves :
        Leaves i P i.send_pkt n i.world.heap (transition n (put_world (put_mem m i.world) i))
    unfolding transition set_state_id put_world put_mem
    written-Leaves = record {
      conn_id = refl;
      bufs = refl;
      timers = refl;
      immediate_transition = refl;
      same_data = refl;
      state = refl;
      decided = refl;
      len = refl;
      heap = refl;
      mem = good;
    }

-- The object gets new fields after the step.
module _ {O K F H : Type 0} (heap : Heap O H) (o : O) where
  pub keep_object-Leaves :
      {i j : Iface K F (World H)} {P : Bytes → Type 0} {send : Bool} {n : ℕ}
      → Leaves i P send n i.world.heap j
      → j.world.heap ≡ i.world.heap
      → Leaves i P send n (heap.save i.state.state_data o i.world.heap) (keep_object heap o j)
  unfolding keep_object put_world put_heap
  keep_object-Leaves l same = record {
    conn_id = l.conn_id;
    bufs = l.bufs;
    timers = l.timers;
    immediate_transition = l.immediate_transition;
    same_data = l.same_data;
    state = l.state;
    decided = l.decided;
    len = l.len;
    heap = rw (l.same_data, same) refl;
    mem = l.mem;
  }
