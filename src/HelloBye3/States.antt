-- ===== src/HelloBye3/States.antt =====
-- The states of HelloBye3 and the function tables that `init` fills.
use moon_state.Prelude.{ℕ, ◌≡◌, refl, ◌⊎◌, inl, inr, Bool, true, false, if◌then◌else◌}
use moon_state.Fault.{Result, ok, >>=-eq-ok, ok-injective, not-err-ok}
use moon_state.BufArray.{Ptr}
use moon_state.Machine.Table.{Table}
use moon_state.Machine.Types.{State, Iface, Machine}
use moon_state.Machine.Iface.{free_pkt, transition, set_state_id}
use moon_state.Machine.Run.{
  lookup_fun, new_machine, register_function, register_end_state_id, register_start_state_id,
}
use moon_state.Hello.Heap.{Heap, World, object}
use moon_state.Hello.Effects.{put_world, drop_object, refuse}
use moon_state.Hello.Api.{ident_keys}
use moon_state.HelloBye3.Server.{Cookies}
use moon_state.HelloBye3.Server
use moon_state.HelloBye3.Client.{Client}
use moon_state.HelloBye3.Client
use moon_state.HelloBye3.Setup.{
  ServerFun, factory_fun, hello_fun, bye_fun, ClientFun, client_hello_fun, client_bye_fun,
  client_recv_bye_fun, run_server_fun, run_client_fun, server_init, client_init,
}

-- The state `n` is the end state of the machine, or there is a function for it.
pub Served : {K F TM : Type 0} → Machine K F TM → ℕ → Type 0
Served {F = F} sm n = (n ≡ sm.end_state_id) ⊎ ((f : F) × (lookup_fun n sm.functions ≡ ok f))

module _ {K F H O : Type 0} (heap : Heap O H) {I G TM : Type 0} (sm : Machine I G TM) where
  -- The ends of a state function, each with the state that it leaves.
  refuse-Served :
      (terminate : ℕ) (i j : Iface K F (World H))
      → Served sm terminate
      → ok (refuse heap terminate i) ≡ ok j
      → Served sm j.state.state
  unfolding refuse drop_object put_world transition free_pkt set_state_id
  refuse-Served terminate i j s e = rw (← ok-injective e) s

  reply-Served :
      (n : ℕ) (w : World H) (i j : Iface K F (World H))
      → Served sm n
      → ok (transition n (put_world w i)) ≡ ok j
      → Served sm j.state.state
  unfolding put_world transition set_state_id
  reply-Served n w i j s e = rw (← ok-injective e) s

  drop-Served :
      (n : ℕ) (i j : Iface K F (World H))
      → Served sm n
      → ok (drop_object heap (transition n i)) ≡ ok j
      → Served sm j.state.state
  unfolding put_world transition set_state_id drop_object
  drop-Served n i j s e = rw (← ok-injective e) s

  branch-Served :
      (b : Bool) (terminate : ℕ) {r : Result (Iface K F (World H))} (i j : Iface K F (World H))
      → Served sm terminate
      → (r ≡ ok j → Served sm j.state.state)
      → (if b then ok (refuse heap terminate i) else r) ≡ ok j
      → Served sm j.state.state
  branch-Served true terminate i j s rest e = refuse-Served terminate i j s e
  branch-Served false terminate i j s rest e = rest e

module _ {H TM PM : Type 0} (data_at : Ptr → ℕ) (table : Table ident_keys State TM)
    (pooled : Table ident_keys State PM) (empty : TM) (clock numbers : ℕ → ℕ) (w : World H) where
  abbrev server_sm : Machine ℕ ServerFun TM
  server_sm = (server_init data_at table pooled empty clock numbers w).0

  abbrev client_sm : Machine ℕ ClientFun TM
  client_sm = (client_init data_at table pooled empty clock numbers w).0

  server_states-Served : Served server_sm 0 × Served server_sm 1 × Served server_sm 2
  unfolding Served server_init register_function register_end_state_id register_start_state_id
      new_machine lookup_fun
  server_states-Served = (inr (hello_fun, refl), inr (bye_fun, refl), inl refl)

  client_states-Served : Served client_sm 1 × Served client_sm 2 × Served client_sm 3
  unfolding Served client_init register_function register_end_state_id new_machine lookup_fun
  client_states-Served = (inr (client_bye_fun, refl), inr (client_recv_bye_fun, refl), inl refl)

  module _ {K F : Type 0} (p : Ptr) (i j : Iface K F (World H)) where
    -- After any function of the server that returns, the connection is in the end state of the
    -- machine that `HelloBye3_Server_init` sets up, or in a state for which that machine finds a
    -- function, so that the assertions of the lookup hold.
    pub server-Served :
        (heap : Heap Cookies H) (f : ServerFun)
        → run_server_fun data_at table pooled heap f p i ≡ ok j
        → Served server_sm j.state.state
    unfolding run_server_fun Server.run_hello Server.run_bye
    server-Served heap factory_fun h = absurd (not-err-ok h)
    server-Served heap hello_fun h =
        let (s, _, k) = >>=-eq-ok (object heap i.state.state_data i.world.heap) _ h in
        branch-Served heap server_sm _ 2 i j (server_states-Served.2)
          (branch-Served heap server_sm _ 2 i j (server_states-Served.2)
            (reply-Served heap server_sm 1 _ i j (server_states-Served.1)))
          k
    server-Served heap bye_fun h =
        let (s, _, k) = >>=-eq-ok (object heap i.state.state_data i.world.heap) _ h in
        branch-Served heap server_sm _ 2 i j (server_states-Served.2)
          (branch-Served heap server_sm _ 2 i j (server_states-Served.2)
            (drop-Served heap server_sm 2 _ j (server_states-Served.2)))
          k

    -- The same for the client and `HelloBye3_Client_init`.
    pub client-Served :
        (heap : Heap Client H) (f : ClientFun)
        → run_client_fun data_at table pooled heap f p i ≡ ok j
        → Served client_sm j.state.state
    unfolding run_client_fun Client.run_hello Client.run_bye Client.run_recv_bye
    client-Served heap client_hello_fun h =
        let (s, _, k) = >>=-eq-ok (object heap i.state.state_data i.world.heap) _ h in
        reply-Served heap client_sm 1 _ i j (client_states-Served.0) k
    client-Served heap client_bye_fun h =
        let (s, _, k) = >>=-eq-ok (object heap i.state.state_data i.world.heap) _ h in
        branch-Served heap client_sm _ 3 i j (client_states-Served.2)
          (reply-Served heap client_sm 2 _ i j (client_states-Served.1)) k
    client-Served heap client_recv_bye_fun h =
        let (s, _, k) = >>=-eq-ok (object heap i.state.state_data i.world.heap) _ h in
        branch-Served heap client_sm _ 3 i j (client_states-Served.2)
          (branch-Served heap client_sm _ 3 i j (client_states-Served.2)
            (drop-Served heap client_sm 3 _ j (client_states-Served.2)))
          k
