-- ===== src/HelloBye3MemPool/Pools.antt =====
-- The pool is shared by all servers (or all clients) of the process.
use moon_state.Prelude.{ℕ, ◌≡◌, refl, ap, ◌∙◌, none, arith}
use moon_state.Fault.{ok, err, dangling, ok-injective}
use moon_state.BufArray.{Ptr}
use moon_state.Machine.Table.{Table}
use moon_state.Machine.Types.{State, Iface, Machine}
use moon_state.Hello.Heap.{Heap, World, object}
use moon_state.Hello.Effects.{put_heap}
use moon_state.Hello.Api.{ident_keys, seed}
use moon_state.HelloBye3.Server.{Cookies}
use moon_state.HelloBye3.Setup.{ServerFun}
use moon_state.HelloBye3MemPool.Server
use moon_state.HelloBye3MemPool.Setup.{
  Pools, Mempool, live, freed, need_pool, free_pool, server_init, server_free,
}

module _ {H : Type 0} (data_at : Ptr → ℕ) {TM PM : Type 0} (table : Table ident_keys State TM)
    (pooled : Table ident_keys State PM) (heap : Heap Cookies H)
    (pools : Pools Cookies H heap) where
  -- A bye for a connection whose object is gone.
  run_bye_gone :
      {F : Type 0} (p : Ptr) (i : Iface ℕ F (World H))
      → heap.load i.state.state_data i.world.heap ≡ none
      → Server.run_bye heap data_at p i ≡ err dangling
  unfolding Server.run_bye object
  run_bye_gone p i e = ground (arith, e)

  -- After `HelloBye3MemPool_Server_free` of one server has freed the static pool, a further
  -- server can be set up without a fault but gets the freed pool, to free it again is a fault,
  -- and so is a bye for a connection of any server, whatever its object was.
  pub server_free-server_init :
      {F : Type 0} (w w1 : World H) (mempool : Mempool) (empty : TM) (clock numbers : ℕ → ℕ)
      → server_free data_at table pooled heap pools live w ≡ ok (mempool, w1)
      → (sm : Machine ℕ ServerFun TM) × (w2 : World H) × (server_init data_at table pooled heap
            pools mempool empty clock numbers w1
          ≡ ok (freed, sm, w2))
        × (server_free data_at table pooled heap pools freed w2 ≡ err dangling)
        × ((p : Ptr) (i : Iface ℕ F (World H))
            → i.world ≡ w2
            → Server.run_bye heap data_at p i ≡ err dangling)
  unfolding server_free free_pool server_init need_pool seed put_heap
  server_free-server_init w w1 mempool empty clock numbers h =
      let is : (freed, put_heap (pools.destroy w.heap) w) ≡ (mempool, w1) = ok-injective h in
      let m : freed ≡ mempool = ap (λ (z : Mempool × World H). z.0) is in
      let v : put_heap (pools.destroy w.heap) w ≡ w1 = ap (λ (z : Mempool × World H). z.1) is in
      rw (← m, ← v)
        (
          _,
          _,
          refl,
          refl,
          λ p i e. run_bye_gone p i (
              ap (λ (z : World H). heap.load i.state.state_data z.heap) e
              ∙ pools.load-destroy w.heap i.state.state_data),
        )
