-- ===== src/Dtls/Freed.antt =====
-- `DtlsServer_free` and `DtlsClient_free` read what they have deleted.
use moon_state.Prelude.{◌≡◌, some, arith}
use moon_state.Fault.{err, dangling}
use moon_state.BufArray.{Ptr}
use moon_state.Hello.Heap.{Heap, object, drop_self}
use moon_state.Dtls.Setup.{Config, free}

pub free_dangles :
    {G : Type 0} (configs : Heap Config G) (obj : Ptr) (g : G) (c : Config)
    → configs.load obj g ≡ some c
    → free configs obj g ≡ err dangling
unfolding free object
free_dangles configs obj g c live = ground (arith, live, drop_self configs g obj)
