-- ===== src/Hello/Convert.antt =====
-- The objects of the protocols whose states are classes: a change of the fields, and the conversion
-- to the class of the next state.
use moon_state.Fault.{Result, ok, ◌>>=◌}
use moon_state.Machine.Types.{Iface}
use moon_state.Hello.Heap.{Heap, World, allocate}
use moon_state.Hello.Effects.{put_world, put_heap}

module _ {O K F H : Type 0} (heap : Heap O H) where
  -- A change of the object's fields.
  unfoldable pub keep_object : O → Iface K F (World H) → Iface K F (World H)
  keep_object o i = put_world (put_heap (heap.save i.state.state_data o i.world.heap) i.world) i

  -- "Finish transision to other state": a new object, and the old one is deleted.
  unfoldable pub convert : O → Iface K F (World H) → Result (Iface K F (World H))
  convert o i = do
    (p, w) ← allocate heap o i.world
    let w' = put_heap (heap.drop i.state.state_data w.heap) w
    ok (record i { state = record (i.state) { state_data = p }; world = w' })
