-- ===== src/Hello/Effects.antt =====
-- What a state function of a HelloBye protocol does through its interface object.
use moon_state.Prelude.{ℕ}
use moon_state.Headers.Bytes.{Bytes}
use moon_state.Hello.Heap.{Heap, World}
use moon_state.Machine.Types.{Iface}
use moon_state.Machine.Iface.{free_pkt, transition}

module _ {H : Type 0} where
  unfoldable pub put_mem : Bytes → World H → World H
  put_mem m w = record w { mem = m }

  unfoldable pub put_heap : H → World H → World H
  put_heap h w = record w { heap = h }

module _ {K F H : Type 0} where
  -- The user's memory after some writes of the function.
  unfoldable pub put_world : World H → Iface K F (World H) → Iface K F (World H)
  put_world w i = record i { world = w }

  module _ {O : Type 0} (heap : Heap O H) where
    -- `delete` of the connection's object.
    unfoldable pub drop_object : Iface K F (World H) → Iface K F (World H)
    unfolding put_world put_heap
    drop_object i = put_world (put_heap (heap.drop i.state.state_data i.world.heap) i.world) i

    -- The end of a connection that broke the protocol: no answer, and the object is deleted.
    unfoldable pub refuse : ℕ → Iface K F (World H) → Iface K F (World H)
    unfolding drop_object
    refuse terminate i = free_pkt (drop_object (transition terminate i))
