-- ===== src/HelloBye3/Calls.antt =====
-- The state functions of HelloBye3 as users of the framework.
use moon_state.Prelude.{ℕ, ◌≤◌, ◌≡◌, refl, sym, Bool, true, false, arith, if◌then◌else◌}
use moon_state.Fault.{Result, ok, >>=-eq-ok, ok-injective, not-err-ok}
use moon_state.BufArray.{Ptr}
use moon_state.Machine.Table.{Table}
use moon_state.Machine.Types.{State, Iface}
use moon_state.Machine.Iface.{
  free_pkt, transition, frees, transitions, touches, Call, Uses, here, next,
}
use moon_state.Machine.Uses.{WellBehaved}
use moon_state.Hello.Heap.{Heap, World, object}
use moon_state.Hello.Effects.{put_world, put_heap, drop_object, refuse}
use moon_state.Hello.Api.{ident_keys}
use moon_state.HelloBye3.Server.{Cookies}
use moon_state.HelloBye3.Server
use moon_state.HelloBye3.Client.{Client}
use moon_state.HelloBye3.Client
use moon_state.HelloBye3.Setup.{
  ServerFun, factory_fun, hello_fun, bye_fun, ClientFun, client_hello_fun, client_bye_fun,
  client_recv_bye_fun, run_server_fun, server_env, run_client_fun, client_env,
}

module _ {K F H O : Type 0} (heap : Heap O H) (alloc : F → World H → Ptr × World H) where
  -- At most three calls of the interface.
  Few : Iface K F (World H) → Iface K F (World H) → Type 0
  Few i j = (n : ℕ) × (n ≤ 3) × Uses alloc i n j

  drop-Call : (i : Iface K F (World H)) → Call alloc i (drop_object heap i)
  unfolding drop_object put_world put_heap
  drop-Call i =
      touches i.state.state_data (put_heap (heap.drop i.state.state_data i.world.heap) i.world) refl

  refuse-Few :
      (terminate : ℕ) (i j : Iface K F (World H)) → ok (refuse heap terminate i) ≡ ok j → Few i j
  unfolding Few refuse
  refuse-Few terminate i j e = (
    3,
    omega arith,
    next (next (next here (transitions terminate refl)) (drop-Call (transition terminate i)))
        (frees (sym (ok-injective e))),
  )

  reply-Few :
      (n : ℕ) (w : World H) (i j : Iface K F (World H))
      → ok (transition n (put_world w i)) ≡ ok j
      → Few i j
  unfolding Few put_world
  reply-Few n w i j e = (
    2,
    omega arith,
    next (next here (touches i.state.state_data w refl)) (transitions n (sym (ok-injective e))),
  )

  part-Few :
      (n : ℕ) (w : World H) (i j : Iface K F (World H))
      → ok (drop_object heap (transition n (put_world w i))) ≡ ok j
      → Few i j
  unfolding Few put_world
  part-Few n w i j e = (
    3,
    omega arith,
    rw (← ok-injective e) (
        next (next (next here (touches i.state.state_data w refl)) (transitions n refl))
          (drop-Call (transition n (put_world w i)))),
  )

  done-Few :
      (n : ℕ) (i j : Iface K F (World H))
      → ok (drop_object heap (transition n (free_pkt i))) ≡ ok j
      → Few i j
  unfolding Few
  done-Few n i j e = (
    3,
    omega arith,
    rw (← ok-injective e) (
        next (next (next here (frees refl)) (transitions n refl))
          (drop-Call (transition n (free_pkt i)))),
  )

  -- A test of the message: the connection ends where it fails.
  branch-Few :
      (b : Bool) (terminate : ℕ) {r : Result (Iface K F (World H))} (i j : Iface K F (World H))
      → (r ≡ ok j → Few i j)
      → (if b then ok (refuse heap terminate i) else r) ≡ ok j
      → Few i j
  branch-Few true terminate i j rest e = refuse-Few terminate i j e
  branch-Few false terminate i j rest e = rest e

module _ {K F H : Type 0} (data_at : Ptr → ℕ) (alloc : F → World H → Ptr × World H) where
  module _ (heap : Heap Cookies H) (p : Ptr) (i j : Iface K F (World H)) where
    server_hello-Few : Server.run_hello heap data_at p i ≡ ok j → Few heap alloc i j
    unfolding Server.run_hello
    server_hello-Few h =
        let (s, _, k) = >>=-eq-ok (object heap i.state.state_data i.world.heap) _ h in
        branch-Few heap alloc _ Server.terminate i j
          (branch-Few heap alloc _ Server.terminate i j (reply-Few heap alloc Server.bye _ i j)) k

    server_bye-Few : Server.run_bye heap data_at p i ≡ ok j → Few heap alloc i j
    unfolding Server.run_bye
    server_bye-Few h =
        let (s, _, k) = >>=-eq-ok (object heap i.state.state_data i.world.heap) _ h in
        branch-Few heap alloc _ Server.terminate i j
          (branch-Few heap alloc _ Server.terminate i j
            (part-Few heap alloc Server.terminate _ i j))
          k

  module _ (heap : Heap Client H) (p : Ptr) (i j : Iface K F (World H)) where
    client_hello-Few : Client.run_hello heap data_at p i ≡ ok j → Few heap alloc i j
    unfolding Client.run_hello
    client_hello-Few h =
        let (s, _, k) = >>=-eq-ok (object heap i.state.state_data i.world.heap) _ h in
        reply-Few heap alloc Client.bye _ i j k

    client_bye-Few : Client.run_bye heap data_at p i ≡ ok j → Few heap alloc i j
    unfolding Client.run_bye
    client_bye-Few h =
        let (s, _, k) = >>=-eq-ok (object heap i.state.state_data i.world.heap) _ h in
        branch-Few heap alloc _ Client.terminate i j (reply-Few heap alloc Client.recv_bye _ i j) k

    client_recv_bye-Few : Client.run_recv_bye heap data_at p i ≡ ok j → Few heap alloc i j
    unfolding Client.run_recv_bye
    client_recv_bye-Few h =
        let (s, _, k) = >>=-eq-ok (object heap i.state.state_data i.world.heap) _ h in
        branch-Few heap alloc _ Client.terminate i j
          (branch-Few heap alloc _ Client.terminate i j (done-Few heap alloc Client.terminate i j))
          k

module _ {TM PM : Type 0} (data_at : Ptr → ℕ) (table : Table ident_keys State TM)
    (pooled : Table ident_keys State PM) where
  -- The functions that server and client register are users of the framework in the sense that
  -- its theorems ask for: each works through the interface alone and by at most three calls, on
  -- every message and every heap.
  pub protocols-WellBehaved :
      {H G : Type 0} (server_heap : Heap Cookies H) (client_heap : Heap Client G)
      → WellBehaved (server_env data_at table pooled server_heap) 3
        × WellBehaved (client_env data_at table pooled client_heap) 3
  unfolding run_server_fun run_client_fun Few
  protocols-WellBehaved server_heap client_heap = (
    record {
      fun_uses = λ f p i j h. server_uses server_heap f p i j h;
      timeout_uses = λ f i j h. absurd (not-err-ok h);
    },
    record {
      fun_uses = λ f p i j h. client_uses client_heap f p i j h;
      timeout_uses = λ f i j h. absurd (not-err-ok h);
    },
  )
    where
      server_uses :
          {H : Type 0} (heap : Heap Cookies H) (f : ServerFun) (p : Ptr)
          (i j : Iface ℕ ServerFun (World H))
          → run_server_fun data_at table pooled heap f p i ≡ ok j
          → Few heap (λ (f : ServerFun) (w : World H). (0, w)) i j
      server_uses {H = H} heap factory_fun p i j h = absurd (not-err-ok h)
      server_uses {H = H} heap hello_fun p i j h =
          server_hello-Few data_at (λ (f : ServerFun) (w : World H). (0, w)) heap p i j h
      server_uses {H = H} heap bye_fun p i j h =
          server_bye-Few data_at (λ (f : ServerFun) (w : World H). (0, w)) heap p i j h

      client_uses :
          {H : Type 0} (heap : Heap Client H) (f : ClientFun) (p : Ptr)
          (i j : Iface ℕ ClientFun (World H))
          → run_client_fun data_at table pooled heap f p i ≡ ok j
          → Few heap (λ (f : ClientFun) (w : World H). (0, w)) i j
      client_uses {H = H} heap client_hello_fun p i j h =
          client_hello-Few data_at (λ (f : ClientFun) (w : World H). (0, w)) heap p i j h
      client_uses {H = H} heap client_bye_fun p i j h =
          client_bye-Few data_at (λ (f : ClientFun) (w : World H). (0, w)) heap p i j h
      client_uses {H = H} heap client_recv_bye_fun p i j h =
          client_recv_bye-Few data_at (λ (f : ClientFun) (w : World H). (0, w)) heap p i j h
