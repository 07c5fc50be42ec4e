-- ===== src/HelloBye/Greeting.antt =====
-- The packet that `HelloByeClientHello::fun` builds, and the connection of the answers to it.
use moon_state.Prelude.{ℕ, ◌+◌, ◌≤◌, ◌<◌, ◌≡◌, ◌∙◌, refl, ap, inl, inr, arith, true, some, List}
use moon_state.Fault.{ok}
use moon_state.BufArray.{Ptr}
use moon_state.Headers.Bytes.{Bytes, read16, read32, swap16, swap32}
use moon_state.Headers.Ipv4
use moon_state.Headers.Udp
use moon_state.Ident.{ConnectionId, identify}
use moon_state.Machine.Types.{Iface}
use moon_state.Machine.Iface.{transition, set_state_id}
use moon_state.Hello.Heap.{Heap, World, object}
use moon_state.Hello.Packet.{ip_at, udp_at, msg_at, zeroed, first_ip, first_udp}
use moon_state.Hello.Effects.{put_world, put_mem}
use moon_state.Hello.First.{
  same32, first_ip_first, first_ip_proto, first_ip_src, first_ip_dst, first_udp_other,
  first_udp_src, first_udp_dst, udp_at_is, msg_at_is,
}
use moon_state.HelloBye.Text.{
  is_text, write_text, line, write_text_below, is_text-write_text, is_text_same,
}
use moon_state.HelloBye.Objects.{Greeter, Object, client_object, as_client}
use moon_state.HelloBye.Server.{client_hello_text}
use moon_state.HelloBye.Client.{Config, bye, hello_packet, run_hello}
use moon_state.HelloBye.Setup.{connection_id}
use moon_state.HelloBye.Spoken.{Spoken, udp_at_same}

-- The connection that the client's packets belong to.
abbrev pub outgoing : Config → Greeter → ConnectionId
outgoing config o = record {
  dst_ip = swap32 o.dst_ip;
  src_ip = swap32 config.src_ip;
  dst_port = swap16 config.dst_port;
  src_port = swap16 o.src_port;
  proto = Ipv4.proto_udp;
}

module _ (config : Config) (o : Greeter) (d n : ℕ) (m : Bytes) (room : 15 ≤ n) where
  abbrev pub text : List ℕ
  text = line client_hello_text o.client_cookie

  abbrev pub header : Bytes
  header = first_ip (ip_at d) config.src_ip o.dst_ip (zeroed d n m)

  abbrev pub with_text : Bytes
  with_text = write_text (d + 42) text header

  abbrev pub packet : Bytes
  packet = first_udp d (d + 34) o.src_port config.dst_port with_text

  clear : zeroed d n m (ip_at d) ≡ 0
  unfolding zeroed ip_at
  clear = ground arith

  header_first : header (ip_at d) ≡ 69
  header_first = first_ip_first (ip_at d) config.src_ip o.dst_ip (zeroed d n m) clear

  pub hello_packet_is : hello_packet config o d n m ≡ packet
  unfolding hello_packet
  hello_packet_is = rw (udp_at_is d header header_first, msg_at_is d header header_first) refl

  ip_is : ip_at d ≡ d + 14
  unfolding ip_at
  ip_is = refl

  -- The IP header is not written again, and neither is the text.
  in_header : (a : ℕ) → d + 14 ≤ a → a < d + 34 → packet a ≡ header a
  in_header a l h =
      first_udp_other d (d + 34) o.src_port config.dst_port with_text (omega arith) a l (inl h)
      ∙ write_text_below (d + 42) text header a (omega arith)

  in_header32 : (q : ℕ) → d + 14 ≤ q → q + 4 ≤ d + 34 → read32 packet q ≡ read32 header q
  in_header32 q l h =
      same32 packet header q (in_header q l (omega arith))
        (in_header (q + 1) (omega arith) (omega arith))
        (in_header (q + 2) (omega arith) (omega arith))
        (in_header (q + 2 + 1) (omega arith) (omega arith))

  in_text : (a : ℕ) → d + 42 ≤ a → packet a ≡ with_text a
  in_text a l =
      first_udp_other d (d + 34) o.src_port config.dst_port with_text (omega arith) a (omega arith)
        (inr (omega arith))

  pub packet_first : packet (ip_at d) ≡ 69
  packet_first = in_header (ip_at d) (omega (arith, ip_is)) (omega (arith, ip_is)) ∙ header_first

  packet_proto : Ipv4.proto packet (ip_at d) ≡ Ipv4.proto_udp
  unfolding Ipv4.proto
  packet_proto =
      in_header (ip_at d + 9) (omega (arith, ip_is)) (omega (arith, ip_is))
      ∙ first_ip_proto (ip_at d) config.src_ip o.dst_ip (zeroed d n m) clear

  packet_src : Ipv4.src_ip packet (ip_at d) ≡ swap32 config.src_ip
  unfolding Ipv4.src_ip
  packet_src =
      in_header32 (ip_at d + 12) (omega (arith, ip_is)) (omega (arith, ip_is))
      ∙ first_ip_src (ip_at d) config.src_ip o.dst_ip (zeroed d n m) clear

  packet_dst : Ipv4.dst_ip packet (ip_at d) ≡ swap32 o.dst_ip
  unfolding Ipv4.dst_ip
  packet_dst =
      in_header32 (ip_at d + 16) (omega (arith, ip_is)) (omega (arith, ip_is))
      ∙ first_ip_dst (ip_at d) config.src_ip o.dst_ip (zeroed d n m) clear

  packet_udp : udp_at packet d ≡ d + 34
  packet_udp = udp_at_is d packet packet_first

  packet_src_port : Udp.src_port packet (udp_at packet d) ≡ swap16 o.src_port
  unfolding Udp.src_port
  packet_src_port =
      ap (λ (q : ℕ). read16 packet q) packet_udp
      ∙ first_udp_src d (d + 34) o.src_port config.dst_port with_text (omega arith)

  packet_dst_port : Udp.dst_port packet (udp_at packet d) ≡ swap16 config.dst_port
  unfolding Udp.dst_port
  packet_dst_port =
      ap (λ (q : ℕ). read16 packet (q + 2)) packet_udp
      ∙ first_udp_dst d (d + 34) o.src_port config.dst_port with_text (omega arith)

  packet_said : is_text (msg_at packet d) text packet ≡ true
  packet_said =
      ap (λ (q : ℕ). is_text q text packet) (msg_at_is d packet packet_first)
      ∙ is_text_same (d + 42) text packet with_text in_text
      ∙ is_text-write_text (d + 42) text header

-- The identifier of a packet whose header fields are known.
identify_is :
    (d src dst sp dp : ℕ) (k : Bytes)
    → Ipv4.proto k (ip_at d) ≡ Ipv4.proto_udp
    → Ipv4.src_ip k (ip_at d) ≡ src
    → Ipv4.dst_ip k (ip_at d) ≡ dst
    → Udp.src_port k (udp_at k d) ≡ sp
    → Udp.dst_port k (udp_at k d) ≡ dp
    → identify k d
      ≡ some (record {
        dst_ip = dst;
        src_ip = src;
        dst_port = dp;
        src_port = sp;
        proto = Ipv4.proto_udp;
      })
unfolding identify ip_at udp_at
identify_is d src dst sp dp k p es ed esp edp = rw (p, es, ed, esp, edp) refl

module _ {K F H : Type 0} (heap : Heap Object H) (data_at : Ptr → ℕ) (pkt : Ptr)
    (i : Iface K F (World H)) (config : Config) (o : Greeter) where
  -- The client's first function returns, and the packet that it has built says its text when it
  -- is read as a packet of the protocol: a client's hello with the object's cookie in decimal.
  -- The identifier finds in it the configured address and port and those of the object. The
  -- connection waits for the server's hello, the packet is to be sent as it was before, and no
  -- object changes. Conditions: the connection's object is the client's, the configuration has
  -- been created, and the packet's buffer reaches at least to the first byte of the IP header.
  pub run_hello-outgoing :
      heap.load i.state.state_data i.world.heap ≡ some (client_object o)
      → 15 ≤ i.world.len pkt
      → (j : Iface K F (World H)) × (run_hello heap data_at (some config) pkt i ≡ ok j)
        × (j.state.state ≡ bye)
        × (j.send_pkt ≡ i.send_pkt)
        × (j.world.heap ≡ i.world.heap)
        × (is_text
              (msg_at j.world.mem (data_at pkt))
              (line client_hello_text o.client_cookie)
              j.world.mem
            ≡ true)
        × (identify j.world.mem (data_at pkt) ≡ some (outgoing config o))
  unfolding run_hello object as_client put_world put_mem transition set_state_id
  run_hello-outgoing live room =
      let d : ℕ = data_at pkt in
      let n : ℕ = i.world.len pkt in
      let m : Bytes = i.world.mem in
      let p : Bytes = packet config o d n m room in
      (
        transition bye (put_world (put_mem (hello_packet config o d n m) i.world) i),
        ground (arith, live),
        refl,
        refl,
        refl,
        rw (hello_packet_is config o d n m room) (packet_said config o d n m room),
        rw (hello_packet_is config o d n m room) (
            identify_is d _ _ _ _ p (packet_proto config o d n m room)
              (packet_src config o d n m room) (packet_dst config o d n m room)
              (packet_src_port config o d n m room) (packet_dst_port config o d n m room)),
      )

-- Every answer to the client's first packet belongs to the connection under which
-- `HelloByeClient_connect` registers the client, whatever the addresses, the ports and the
-- answer's text are. Conditions: the packet's buffer reaches at least to the first byte of the IP
-- header, and the answer stands where the packet did and keeps its headers, with addresses and
-- ports exchanged.
pub identify-connection_id :
    (config : Config) (o : Greeter) (d n : ℕ) (m : Bytes)
    → 15 ≤ n
    → (s : List ℕ) (k : Bytes) → Spoken s (hello_packet config o d n m) d k
    → identify k d ≡ some (connection_id config o.dst_ip o.src_port)
unfolding connection_id
identify-connection_id config o d n m room s k x =
    let y : Spoken s (packet config o d n m room) d k =
      rw (hello_packet_is config o d n m room) at x in
    let there : udp_at k d ≡ udp_at (packet config o d n m room) d = udp_at_same y in
    identify_is d _ _ _ _ k (y.proto ∙ packet_proto config o d n m room)
      (y.src_ip ∙ packet_dst config o d n m room) (y.dst_ip ∙ packet_src config o d n m room)
      (ap (λ (q : ℕ). Udp.src_port k q) there ∙ y.src_port ∙ packet_dst_port config o d n m room)
      (ap (λ (q : ℕ). Udp.dst_port k q) there ∙ y.dst_port ∙ packet_src_port config o d n m room)
