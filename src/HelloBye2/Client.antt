-- ===== src/HelloBye2/Client.antt =====
-- `HelloBye2::Client`: the classes `Hello`, `Bye` and `RecvBye`.
use moon_state.Prelude.{ℕ, not, ◌||◌, ◌==◌, if◌then◌else◌}
use moon_state.Fault.{Result, ok, ◌>>=◌}
use moon_state.BufArray.{Ptr}
use moon_state.Headers.Bytes.{Bytes}
use moon_state.Machine.Types.{Iface}
use moon_state.Machine.Iface.{free_pkt, transition}
use moon_state.Hello.Heap.{Heap, World, random_below, object, allocate}
use moon_state.Hello.Packet.{
  ip_at, udp_at, msg_at, message, set_message, set_ident, answer, zeroed, first_ip, first_udp,
  role_client, role_server, msg_hello, msg_bye,
}
use moon_state.Hello.Effects.{put_world, put_mem, drop_object}
use moon_state.Hello.Convert.{keep_object, convert}
use moon_state.HelloBye2.Objects.{
  Pair, Greeter, Object, client_hello, client_bye, client_recv_bye, as_client_hello, as_client_bye,
  as_client_recv_bye,
}

-- `Client::States`
abbrev pub hello : ℕ
hello = 0

abbrev pub bye : ℕ
bye = 1

abbrev pub recv_bye : ℕ
recv_bye = 2

abbrev pub terminate : ℕ
terminate = 3

-- `HelloBye2ClientConfig`
pub record Config : Type 0 where
  pub src_ip : ℕ
  pub dst_port : ℕ

-- The packet that `Hello::fun` builds in a cleared buffer of the length `n`.
unfoldable pub hello_packet : Config → Greeter → ℕ → ℕ → Bytes → Bytes
hello_packet config o d n m =
    let m1 = first_ip (ip_at d) config.src_ip o.dst_ip (zeroed d n m) in
    let m2 = set_ident (msg_at m1 d) o.ident m1 in
    let m3 =
      set_message (msg_at m1 d)
        (record { role = role_client; kind = msg_hello; cookie = o.client_cookie }) m2 in
    first_udp d (udp_at m1 d) o.src_port config.dst_port m3

module _ {K F H : Type 0} (data_at : Ptr → ℕ) where
  -- `Hello::fun`
  unfoldable pub hello_fun : Config → Ptr → Greeter → Iface K F (World H) → Iface K F (World H)
  unfolding hello_packet
  hello_fun config pkt o i = transition bye (
      put_world
        (put_mem (hello_packet config o (data_at pkt) (i.world.len pkt) i.world.mem) i.world) i)

  -- `Bye::fun`, with the object after it.
  unfoldable pub bye_fun : Ptr → Pair → Iface K F (World H) → Pair × Iface K F (World H)
  bye_fun pkt o i =
      let m = i.world.mem in
      let d = data_at pkt in
      let v = message m (msg_at m d) in
      if not (v.role == role_server) || not (v.kind == msg_hello)
      then (o, free_pkt (transition terminate i))
      else (let o' = record o { server_cookie = v.cookie } in
          let m' =
            answer (record { role = role_client; kind = msg_bye; cookie = o'.server_cookie }) d m in
          (o', transition recv_bye (put_world (put_mem m' i.world) i)))

  -- `RecvBye::fun`: whatever it finds, the connection ends without an answer.
  unfoldable pub recv_bye_fun : Ptr → Pair → Iface K F (World H) → Iface K F (World H)
  recv_bye_fun pkt o i =
      let m = i.world.mem in
      let v = message m (msg_at m (data_at pkt)) in
      if not (v.role == role_server) || not (v.kind == msg_bye)
      then free_pkt (transition terminate i)
      else if not (v.cookie == o.client_cookie)
      then free_pkt (transition terminate i)
      else transition terminate (free_pkt i)

module _ {H : Type 0} (heap : Heap Object H) (data_at : Ptr → ℕ) where
  -- `new Hello(dstIp, srcPort, ident)`
  unfoldable pub new_hello : ℕ → ℕ → ℕ → World H → Result (Ptr × World H)
  new_hello dst_ip src_port ident w =
      let (c, w') = random_below 256 w in
      allocate heap
        (client_hello
          (record { client_cookie = c; dst_ip = dst_ip; src_port = src_port; ident = ident }))
        w'

  module _ {K F : Type 0} where
    -- `Hello::run`. `unset` is what the memory of the new object holds for the server's cookie.
    unfoldable pub run_hello : Config → ℕ → Ptr → Iface K F (World H) → Result (Iface K F (World H))
    unfolding hello_fun
    run_hello config unset pkt i = do
      t ← object heap i.state.state_data i.world.heap
      o ← as_client_hello t
      let j = hello_fun data_at config pkt o i
      if j.state.state == bye
          then convert heap
              (client_bye (record { client_cookie = o.client_cookie; server_cookie = unset })) j
          else if j.state.state == terminate
          then ok (drop_object heap j)
          else ok j

    -- `Bye::run`
    unfoldable pub run_bye : Ptr → Iface K F (World H) → Result (Iface K F (World H))
    unfolding bye_fun
    run_bye pkt i = do
      t ← object heap i.state.state_data i.world.heap
      o ← as_client_bye t
      let (o', j) = bye_fun data_at pkt o i
      let k = keep_object heap (client_bye o') j
      if k.state.state == recv_bye
          then convert heap (client_recv_bye o') k
          else if k.state.state == terminate
          then ok (drop_object heap k)
          else ok k

    -- `RecvBye::run`
    unfoldable pub run_recv_bye : Ptr → Iface K F (World H) → Result (Iface K F (World H))
    unfolding recv_bye_fun
    run_recv_bye pkt i = do
      t ← object heap i.state.state_data i.world.heap
      o ← as_client_recv_bye t
      let j = recv_bye_fun data_at pkt o i
      if j.state.state == terminate then ok (drop_object heap j) else ok j
