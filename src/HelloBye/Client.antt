-- ===== src/HelloBye/Client.antt =====
-- `HelloByeClientHello`, `HelloByeClientBye` and `HelloByeClientRecvBye`.
use moon_state.Prelude.{ℕ, ◌+◌, not, Option, none, some, length, if◌then◌else◌}
use moon_state.Prelude.Int.{ℤ, pos, int_eq}
use moon_state.Fault.{Result, ok, err, ◌>>=◌, dangling}
use moon_state.BufArray.{Ptr}
use moon_state.Headers.Bytes.{Bytes}
use moon_state.Machine.Types.{Iface}
use moon_state.Machine.Iface.{free_pkt, transition}
use moon_state.Hello.Heap.{Heap, World, random_below, object, allocate}
use moon_state.Hello.Packet.{ip_at, udp_at, msg_at, turn, zeroed, first_ip, first_udp}
use moon_state.Hello.Effects.{put_world, put_mem}
use moon_state.Hello.Convert.{keep_object}
use moon_state.HelloBye.Text.{is_text, write_text, line, cookie_at}
use moon_state.HelloBye.Objects.{
  Greeter, Object, client_object, as_client, server_cookie, set_server_cookie,
}
use moon_state.HelloBye.Server.{
  client_hello_text, server_hello_text, client_bye_text, server_bye_text,
}

-- `HelloByeClient`
abbrev pub hello : ℕ
hello = 0

abbrev pub bye : ℕ
bye = 1

abbrev pub recv_bye : ℕ
recv_bye = 2

abbrev pub terminate : ℕ
terminate = 3

-- `HelloByeClientConfig`; its one instance is `none` until it has been created.
pub record Config : Type 0 where
  pub src_ip : ℕ
  pub dst_port : ℕ

unfoldable pub create_instance : Option Config → Option Config
create_instance none = some (record { src_ip = 0; dst_port = 0 })
create_instance (some config) = some config

-- A use of the instance.
abbrev pub configured : Option Config → Result Config
configured none = err dangling
configured (some config) = ok config

-- The packet that `HelloByeClientHello::fun` builds in a cleared buffer of the length `n`.
unfoldable pub hello_packet : Config → Greeter → ℕ → ℕ → Bytes → Bytes
hello_packet config o d n m =
    let m1 = first_ip (ip_at d) config.src_ip o.dst_ip (zeroed d n m) in
    let m2 = write_text (msg_at m1 d) (line client_hello_text o.client_cookie) m1 in
    first_udp d (udp_at m1 d) o.src_port config.dst_port m2

-- "Zero out old data - just assume 20 bytes...", the client's bye, and the way back.
unfoldable pub bye_answer : ℤ → ℕ → Bytes → Bytes
bye_answer cookie d m =
    let m1 = zeroed (msg_at m d) 20 m in
    let m2 = write_text (msg_at m d) (line client_bye_text cookie) m1 in
    turn (ip_at d) (udp_at m d) m2

module _ {K F H : Type 0} (data_at : Ptr → ℕ) where
  -- `HelloByeClientHello::fun`
  unfoldable pub hello_fun : Config → Ptr → Greeter → Iface K F (World H) → Iface K F (World H)
  unfolding hello_packet
  hello_fun config pkt o i = transition bye (
      put_world
        (put_mem (hello_packet config o (data_at pkt) (i.world.len pkt) i.world.mem) i.world) i)

  -- `HelloByeClientBye::fun`, with the object after it.
  unfoldable pub bye_fun : Ptr → Greeter → Iface K F (World H) → Greeter × Iface K F (World H)
  bye_fun pkt o i =
      let m = i.world.mem in
      let d = data_at pkt in
      let p = msg_at m d in
      if not (is_text p server_hello_text m)
      then (o, transition terminate i)
      else (let o' = set_server_cookie (cookie_at (p + length server_hello_text) m) o in
          let m' = bye_answer (server_cookie o') d m in
          (o', transition recv_bye (put_world (put_mem m' i.world) i)))

  -- `HelloByeClientRecvBye::fun`
  unfoldable pub recv_bye_fun : Ptr → Greeter → Iface K F (World H) → Iface K F (World H)
  recv_bye_fun pkt o i =
      let m = i.world.mem in
      let p = msg_at m (data_at pkt) in
      if not (is_text p server_bye_text m)
      then transition terminate i
      else (let recv_cookie = cookie_at (p + length server_bye_text) m in
          if not (int_eq recv_cookie o.client_cookie)
          then transition terminate i
          else transition terminate (free_pkt i))

module _ {H : Type 0} (heap : Heap Object H) (data_at : Ptr → ℕ) where
  -- `new HelloByeClientHello(dstIp, srcPort)`
  unfoldable pub new_hello : ℕ → ℕ → World H → Result (Ptr × World H)
  new_hello dst_ip src_port w =
      let (c, w') = random_below 10 w in
      allocate heap
        (client_object (record { client_cookie = pos c; dst_ip = dst_ip; src_port = src_port })) w'

  module _ {K F : Type 0} where
    -- The three functions `run`, which keep the object that they got.
    unfoldable pub run_hello :
        Option Config → Ptr → Iface K F (World H) → Result (Iface K F (World H))
    unfolding hello_fun
    run_hello instance_of pkt i = do
      t ← object heap i.state.state_data i.world.heap
      o ← as_client t
      config ← configured instance_of
      ok (hello_fun data_at config pkt o i)

    unfoldable pub run_bye : Ptr → Iface K F (World H) → Result (Iface K F (World H))
    unfolding bye_fun
    run_bye pkt i = do
      t ← object heap i.state.state_data i.world.heap
      o ← as_client t
      let (o', j) = bye_fun data_at pkt o i
      ok (keep_object heap (client_object o') j)

    unfoldable pub run_recv_bye : Ptr → Iface K F (World H) → Result (Iface K F (World H))
    unfolding recv_bye_fun
    run_recv_bye pkt i = do
      t ← object heap i.state.state_data i.world.heap
      o ← as_client t
      ok (recv_bye_fun data_at pkt o i)
