-- ===== src/HelloBye3MemPool/Tests.antt =====
-- Concrete inputs for the theorems about the version with memory pools.
use moon_state.Prelude.{ℕ, ◌≡◌, refl, arith, none, some}
use moon_state.Fault.{ok, err, dangling}
use moon_state.BufArray.{Ptr}
use moon_state.Machine.Types.{Machine, Iface}
use moon_state.Machine.Sample.{Map, map_table}
use moon_state.Hello.Heap.{World}
use moon_state.Hello.Effects.{put_heap}
use moon_state.Hello.Sample.{Objects, sample_heap, packet}
use moon_state.HelloBye3.Server.{Cookies}
use moon_state.HelloBye3.Setup.{ServerFun}
use moon_state.HelloBye3.Tests.{at_start, iface_of, cookies}
use moon_state.HelloBye3MemPool.Server as PoolServer
use moon_state.HelloBye3MemPool.Setup.{Pools, live, freed, server_init, server_free, free_pool}
use moon_state.HelloBye3MemPool.Pools.{server_free-server_init}

abbrev server_iface : Iface ℕ ℕ (World (Objects Cookies))
server_iface = iface_of 0 cookies (packet 0 0 21)

gone :
    (h : Objects Cookies) (p : Ptr)
    → (sample_heap {O = Cookies}).load p (record { at = λ q. none; next = 0 }) ≡ none
gone h p = ground arith

abbrev sample_pools : Pools Cookies (Objects Cookies) sample_heap
sample_pools = record {
  create = λ h. some (record h { at = λ q. none });
  destroy = λ h. record { at = λ q. none; next = 0 };
  load-destroy = gone;
}

abbrev before : World (Objects Cookies)
before = server_iface.world

abbrev after : World (Objects Cookies)
after = record before { heap = record { at = λ q. none; next = 0 } }

frees_pool :
    server_free at_start map_table map_table sample_heap sample_pools live before
    ≡ ok (freed, after)
unfolding server_free free_pool put_heap
frees_pool = refl

abbrev no_states : Map
no_states id = none

server_free-server_init_example :
    (sm : Machine ℕ ServerFun Map) × (w2 : World (Objects Cookies)) × (server_init at_start
        map_table map_table sample_heap sample_pools freed no_states
        (λ n. n)
        (λ n. n)
        after
      ≡ ok (freed, sm, w2))
    × (server_free at_start map_table map_table sample_heap sample_pools freed w2 ≡ err dangling)
    × ((p : Ptr) (i : Iface ℕ ℕ (World (Objects Cookies)))
        → i.world ≡ w2
        → PoolServer.run_bye sample_heap at_start p i ≡ err dangling)
server_free-server_init_example =
    server_free-server_init at_start map_table map_table sample_heap sample_pools before after freed
      no_states (λ n. n) (λ n. n) frees_pool
