-- ===== src/HelloBye3/Greeting.antt =====
-- The packet that the client's `runHello` builds.
use moon_state.Prelude.{ℕ, ◌+◌, ◌%◌, ◌^◌, ◌<◌, ◌≤◌, ◌≡◌, ◌⊎◌, ◌∙◌, refl, ap, inl, inr, arith, some}
use moon_state.BufArray.{Ptr}
use moon_state.Headers.Bytes.{Bytes, read16, read32, swap16, swap32, swap16-swap16, swap32-swap32}
use moon_state.Headers.Ethernet
use moon_state.Headers.Ipv4
use moon_state.Headers.Udp
use moon_state.Hello.Packet.{
  ip_at, udp_at, msg_at, ident, set_ident, identify, Message, message, set_message, zeroed,
  first_ip, first_udp, role_client, msg_hello,
}
use moon_state.Fault.{ok}
use moon_state.Machine.Types.{Iface}
use moon_state.Machine.Iface.{transition, set_state_id}
use moon_state.Hello.Heap.{Heap, World, object}
use moon_state.Hello.Effects.{put_mem, put_world}
use moon_state.Hello.First.{
  same32, set_ident_other, ident-set_ident, first_ip_first, first_ip_proto, first_ip_src,
  first_ip_dst, first_udp_other, first_udp_ethertype, first_udp_src, first_udp_dst, udp_at_is,
  msg_at_is,
}
use moon_state.HelloBye3.Client.{Client, bye, hello_packet, run_hello}

-- A packet that says what a client wants to say.
pub record Greets (c : Client) (d : ℕ) (k : Bytes) : Type 0 where
  pub identified : identify k d ≡ some c.ident
  pub said :
      message k (msg_at k d)
      ≡ record { role = role_client; kind = msg_hello; cookie = c.client_cookie }
  pub src_ip : Ipv4.get_src_ip k (ip_at d) ≡ c.src_ip
  pub dst_ip : Ipv4.get_dst_ip k (ip_at d) ≡ c.dst_ip
  pub src_port : Udp.get_src_port k (udp_at k d) ≡ c.src_port
  pub dst_port : Udp.get_dst_port k (udp_at k d) ≡ c.dst_port

-- The members of the object have their types' widths.
pub record Sized (c : Client) : Type 0 where
  pub ident : c.ident < 2 ^ 64
  pub src_ip : c.src_ip < 2 ^ 32
  pub dst_ip : c.dst_ip < 2 ^ 32
  pub cookie : c.client_cookie < 256
  pub src_port : c.src_port < 65536
  pub dst_port : c.dst_port < 65536

-- The header length and the protocol decide where everything is.
module _ (d : ℕ) (k : Bytes) (first : k (ip_at d) ≡ 69) where
  identify_is :
      {n : ℕ}
      → k (ip_at d + 9) ≡ 17
      → read16 k (d + 12) ≡ swap16 2048
      → ident k (d + 42) ≡ n
      → identify k d ≡ some n
  unfolding identify Ethernet.get_ethertype Ipv4.proto
  identify_is e9 ety id = rw (ety, e9, msg_at_is d k first, id) refl

  gather :
      (c : Client) (sized : Sized c)
      → k (ip_at d + 9) ≡ 17
      → read16 k (d + 12) ≡ swap16 2048
      → read32 k (ip_at d + 12) ≡ swap32 c.src_ip
      → read32 k (ip_at d + 16) ≡ swap32 c.dst_ip
      → read16 k (d + 34) ≡ swap16 c.src_port
      → read16 k (d + 34 + 2) ≡ swap16 c.dst_port
      → ident k (d + 42) ≡ c.ident
      → message k (d + 42)
        ≡ record { role = role_client; kind = msg_hello; cookie = c.client_cookie }
      → Greets c d k
  unfolding Ipv4.get_src_ip Ipv4.get_dst_ip Ipv4.src_ip Ipv4.dst_ip Udp.get_src_port
      Udp.get_dst_port Udp.src_port Udp.dst_port
  gather c sized e9 ety es ed sp dp id msg = record {
    identified = identify_is e9 ety id;
    said = ap (message k) (msg_at_is d k first) ∙ msg;
    src_ip = ap (λ (x : ℕ). swap32 x) es ∙ swap32-swap32 c.src_ip sized.src_ip;
    dst_ip = ap (λ (x : ℕ). swap32 x) ed ∙ swap32-swap32 c.dst_ip sized.dst_ip;
    src_port =
        ap (λ (x : ℕ). swap16 (read16 k x)) (udp_at_is d k first)
        ∙ ap (λ (x : ℕ). swap16 x) sp
        ∙ swap16-swap16 c.src_port sized.src_port;
    dst_port =
        ap (λ (x : ℕ). swap16 (read16 k (x + 2))) (udp_at_is d k first)
        ∙ ap (λ (x : ℕ). swap16 x) dp
        ∙ swap16-swap16 c.dst_port sized.dst_port;
  }

module _ (c : Client) (sized : Sized c) (d n : ℕ) (m : Bytes) (room : 15 ≤ n) where
  abbrev header : Bytes
  header = first_ip (ip_at d) c.src_ip c.dst_ip (zeroed d n m)

  abbrev with_ident : Bytes
  with_ident = set_ident (d + 42) c.ident header

  abbrev hello : Message
  hello = record { role = role_client; kind = msg_hello; cookie = c.client_cookie }

  abbrev with_msg : Bytes
  with_msg = set_message (d + 42) hello with_ident

  abbrev packet : Bytes
  packet = first_udp d (d + 34) c.src_port c.dst_port with_msg

  clear : zeroed d n m (ip_at d) ≡ 0
  unfolding zeroed ip_at
  clear = ground arith

  header_first : header (ip_at d) ≡ 69
  header_first = first_ip_first (ip_at d) c.src_ip c.dst_ip (zeroed d n m) clear

  hello_packet_is : hello_packet c d n m ≡ packet
  unfolding hello_packet
  hello_packet_is = rw (udp_at_is d header header_first, msg_at_is d header header_first) refl

  set_message_other :
      (k : Bytes) (a : ℕ) → (a < d + 50) ⊎ (d + 53 ≤ a) → set_message (d + 42) hello k a ≡ k a
  unfolding set_message
  set_message_other k a (inl h) = ground arith
  set_message_other k a (inr h) = ground arith

  -- The IP header is not written again.
  in_header : (a : ℕ) → d + 14 ≤ a → a < d + 34 → packet a ≡ header a
  in_header a l h =
      first_udp_other d (d + 34) c.src_port c.dst_port with_msg (omega arith) a l (inl h)
      ∙ set_message_other with_ident a (inl (omega arith))
      ∙ set_ident_other (d + 42) c.ident header a (inl (omega arith))

  in_header32 : (q : ℕ) → d + 14 ≤ q → q + 4 ≤ d + 34 → read32 packet q ≡ read32 header q
  in_header32 q l h =
      same32 packet header q (in_header q l (omega arith))
        (in_header (q + 1) (omega arith) (omega arith))
        (in_header (q + 2) (omega arith) (omega arith))
        (in_header (q + 2 + 1) (omega arith) (omega arith))

  -- Nor is the message.
  in_msg : (a : ℕ) → d + 42 ≤ a → packet a ≡ with_msg a
  in_msg a l =
      first_udp_other d (d + 34) c.src_port c.dst_port with_msg (omega arith) a (omega arith)
        (inr (omega arith))

  in_ident : (a : ℕ) → d + 42 ≤ a → a < d + 50 → packet a ≡ with_ident a
  in_ident a l h = in_msg a l ∙ set_message_other with_ident a (inl h)

  in_ident32 : (q : ℕ) → d + 42 ≤ q → q + 4 ≤ d + 50 → read32 packet q ≡ read32 with_ident q
  in_ident32 q l h =
      same32 packet with_ident q (in_ident q l (omega arith))
        (in_ident (q + 1) (omega arith) (omega arith))
        (in_ident (q + 2) (omega arith) (omega arith))
        (in_ident (q + 2 + 1) (omega arith) (omega arith))

  ident_said : ident packet (d + 42) ≡ c.ident
  unfolding ident
  ident_said =
      let low : read32 packet (d + 42) ≡ read32 with_ident (d + 42) =
        in_ident32 (d + 42) (omega arith) (omega arith) in
      let high : read32 packet (d + 42 + 4) ≡ read32 with_ident (d + 42 + 4) =
        in_ident32 (d + 42 + 4) (omega arith) (omega arith) in
      let same : ident packet (d + 42) ≡ ident with_ident (d + 42) = cc in
      same ∙ ident-set_ident (d + 42) c.ident header sized.ident

  hello_said : message packet (d + 42) ≡ hello
  unfolding message set_message
  hello_said =
      let cookie : c.client_cookie % 256 ≡ c.client_cookie = omega (arith, sized.cookie) in
      let e0 : packet (d + 42 + 8) ≡ 0 = in_msg (d + 42 + 8) (omega arith) ∙ ground arith in
      let e1 : packet (d + 42 + 9) ≡ 0 = in_msg (d + 42 + 9) (omega arith) ∙ ground arith in
      let e2 : packet (d + 42 + 10) ≡ c.client_cookie =
        in_msg (d + 42 + 10) (omega arith) ∙ ground (arith, cookie) in
      cc

  ip_is : ip_at d ≡ d + 14
  unfolding ip_at
  ip_is = refl

  hello_packet-Greets : Greets c d (hello_packet c d n m)
  hello_packet-Greets = rw hello_packet_is (
      gather d packet
        (in_header (ip_at d) (omega (arith, ip_is)) (omega (arith, ip_is)) ∙ header_first) c sized
        (in_header (ip_at d + 9) (omega (arith, ip_is)) (omega (arith, ip_is))
          ∙ first_ip_proto (ip_at d) c.src_ip c.dst_ip (zeroed d n m) clear)
        (first_udp_ethertype d (d + 34) c.src_port c.dst_port with_msg (omega arith))
        (in_header32 (ip_at d + 12) (omega (arith, ip_is)) (omega (arith, ip_is))
          ∙ first_ip_src (ip_at d) c.src_ip c.dst_ip (zeroed d n m) clear)
        (in_header32 (ip_at d + 16) (omega (arith, ip_is)) (omega (arith, ip_is))
          ∙ first_ip_dst (ip_at d) c.src_ip c.dst_ip (zeroed d n m) clear)
        (first_udp_src d (d + 34) c.src_port c.dst_port with_msg (omega arith))
        (first_udp_dst d (d + 34) c.src_port c.dst_port with_msg (omega arith)) ident_said
        hello_said)

module _ {K F H : Type 0} (heap : Heap Client H) (data_at : Ptr → ℕ) (pkt : Ptr)
    (i : Iface K F (World H)) (c : Client) where
  -- The client's `runHello` returns, and the packet that it has built says what the object says,
  -- when it is read as a packet of the protocol: the identifier finds the object's identity,
  -- whatever number that is, the message is a hello of a client with the object's cookie, and the
  -- addresses and ports are the object's. The connection waits for the server's hello, the packet
  -- is to be sent as it was before, and no object changes. Conditions: the connection's object
  -- exists and its members have the widths of their types, and the packet's buffer reaches at
  -- least to the first byte of the IP header.
  pub run_hello-Greets :
      heap.load i.state.state_data i.world.heap ≡ some c
      → Sized c
      → 15 ≤ i.world.len pkt
      → (j : Iface K F (World H)) × (run_hello heap data_at pkt i ≡ ok j)
        × (j.state.state ≡ bye)
        × (j.send_pkt ≡ i.send_pkt)
        × (j.world.heap ≡ i.world.heap)
        × Greets c (data_at pkt) j.world.mem
  unfolding run_hello object put_world put_mem transition set_state_id
  run_hello-Greets live sized room = (
    transition bye (
        put_world (put_mem (hello_packet c (data_at pkt) (i.world.len pkt) i.world.mem) i.world) i),
    ground (arith, live),
    refl,
    refl,
    refl,
    hello_packet-Greets c sized (data_at pkt) (i.world.len pkt) i.world.mem room,
  )
