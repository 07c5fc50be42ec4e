-- ===== src/HelloBye3MemPool/Client.antt =====
-- `HelloBye3MemPool::Client`: the state functions of the client.
use moon_state.Prelude.{ℕ, not, ◌||◌, ◌==◌, if◌then◌else◌}
use moon_state.Fault.{Result, ok, ◌>>=◌}
use moon_state.BufArray.{Ptr}
use moon_state.HelloBye3.Client.{Client}
use moon_state.Headers.Bytes.{Bytes}
use moon_state.Machine.Types.{State, new_state, Iface}
use moon_state.Machine.Iface.{free_pkt, transition}
use moon_state.Hello.Heap.{Heap, World, random_below, object, allocate}
use moon_state.Hello.Packet.{
  ip_at, udp_at, msg_at, message, set_message, set_ident, answer, zeroed, first_ip, first_udp,
  role_client, role_server, msg_hello, msg_bye,
}
use moon_state.Hello.Effects.{put_world, put_mem, put_heap, drop_object, refuse}

-- `struct States`
abbrev pub hello : ℕ
hello = 0

abbrev pub bye : ℕ
bye = 1

abbrev pub recv_bye : ℕ
recv_bye = 2

abbrev pub terminate : ℕ
terminate = 3

-- The packet that `runHello` builds in a cleared buffer of the length `n`.
unfoldable pub hello_packet : Client → ℕ → ℕ → Bytes → Bytes
hello_packet c d n m =
    let m1 = first_ip (ip_at d) c.src_ip c.dst_ip (zeroed d n m) in
    let m2 = set_ident (msg_at m1 d) c.ident m1 in
    let m3 =
      set_message (msg_at m1 d)
        (record { role = role_client; kind = msg_hello; cookie = c.client_cookie }) m2 in
    first_udp d (udp_at m1 d) c.src_port c.dst_port m3

module _ {H : Type 0} (heap : Heap Client H) (data_at : Ptr → ℕ) where
  -- `createHello`: an exception leaves it when the pool is empty.
  unfoldable pub create_hello : ℕ → ℕ → ℕ → ℕ → ℕ → World H → Result (State × World H)
  create_hello src dst src_port dst_port ident w = do
    let (cookie, w') = random_below 256 w
    (p, w'') ←
        allocate heap
          (record {
            ident = ident;
            src_ip = src;
            dst_ip = dst;
            client_cookie = cookie;
            server_cookie = 0;
            src_port = src_port;
            dst_port = dst_port;
          })
          w'
    ok (new_state hello p, w'')

  module _ {K F : Type 0} where
    -- `runHello`
    unfoldable pub run_hello : Ptr → Iface K F (World H) → Result (Iface K F (World H))
    unfolding hello_packet
    run_hello pkt i = do
      c ← object heap i.state.state_data i.world.heap
      let m' = hello_packet c (data_at pkt) (i.world.len pkt) i.world.mem
      ok (transition bye (put_world (put_mem m' i.world) i))

    -- `runBye`
    unfoldable pub run_bye : Ptr → Iface K F (World H) → Result (Iface K F (World H))
    run_bye pkt i = do
      c ← object heap i.state.state_data i.world.heap
      let m = i.world.mem
      let d = data_at pkt
      let v = message m (msg_at m d)
      if not (v.role == role_server) || not (v.kind == msg_hello)
          then ok (refuse heap terminate i)
          else (let c' = record c { server_cookie = v.cookie } in
              let m' =
                answer (record { role = role_client; kind = msg_bye; cookie = c'.server_cookie }) d
                  m in
              let w =
                put_mem m' (put_heap (heap.save i.state.state_data c' i.world.heap) i.world) in
              ok (transition recv_bye (put_world w i)))

    -- `runRecvBye`
    unfoldable pub run_recv_bye : Ptr → Iface K F (World H) → Result (Iface K F (World H))
    run_recv_bye pkt i = do
      c ← object heap i.state.state_data i.world.heap
      let m = i.world.mem
      let d = data_at pkt
      let v = message m (msg_at m d)
      if not (v.role == role_server) || not (v.kind == msg_bye)
          then ok (refuse heap terminate i)
          else if not (v.cookie == c.client_cookie)
          then ok (refuse heap terminate i)
          else ok (drop_object heap (transition terminate (free_pkt i)))
