-- ===== src/Dtls/Carried.antt =====
-- The packets that the DTLS server builds say what they should.
use moon_state.Prelude.{
  ℕ, ◌+◌, ◌-◌, ◌%◌, ◌<◌, ◌≤◌, ◌≡◌, ◌∙◌, refl, ap, inl, inr, arith, List, length,
}
use moon_state.Headers.Bytes.{
  Bytes, read16, read32, swap16, swap32, swap16-swap16, swap32-swap32, write16-byte-Apart,
}
use moon_state.Headers.Ethernet
use moon_state.Headers.Ipv4
use moon_state.Headers.Udp
use moon_state.Hello.Packet.{ip_at, udp_at}
use moon_state.Hello.First.{same32, udp_at_is}
use moon_state.Tcp.Packet.{read_bytes, write_bytes}
use moon_state.Dtls.Store.{Ends, udp_payload, fill_ip, fill_udp, usual_ip}
use moon_state.Dtls.Server.{Server, first_packet, extra_packet}
use moon_state.Dtls.Packets.{
  Sized, Carries, write_bytes_below, read_bytes_same, read_bytes-write_bytes, fill_ip_other,
  fill_ip_src, fill_ip_dst, fill_ip_proto, fill_udp_other, fill_udp_src, fill_udp_dst, fill_udp_len,
}

pub shift : (d : ℕ) → d + 34 + 8 ≡ d + 42
shift d = omega arith

module _ (e : Ends) (sized : Sized e) (d : ℕ) (bs : List ℕ) (short : length bs + 8 < 65536)
    (w : Bytes) (first : w (ip_at d) ≡ 69) (there : read_bytes (length bs) (d + 42) w ≡ bs) where
  ip_is : ip_at d ≡ d + 14
  unfolding ip_at
  ip_is = refl

  abbrev with_ip : Bytes
  with_ip = fill_ip e (ip_at d) (length bs) w

  abbrev built : Bytes
  built = fill_udp e (d + 34) (length bs) with_ip

  in_ip : (a : ℕ) → a < d + 34 → built a ≡ with_ip a
  in_ip a h = fill_udp_other e (d + 34) (length bs) with_ip a (inl h)

  in_ip32 : (q : ℕ) → q + 4 ≤ d + 34 → read32 built q ≡ read32 with_ip q
  in_ip32 q h =
      same32 built with_ip q (in_ip q (omega arith)) (in_ip (q + 1) (omega arith))
        (in_ip (q + 2) (omega arith)) (in_ip (q + 2 + 1) (omega arith))

  built_first : built (ip_at d) ≡ 69
  built_first =
      in_ip (ip_at d) (omega (arith, ip_is))
      ∙ fill_ip_other e (ip_at d) (length bs) w (ip_at d) (inl (omega arith))
      ∙ first

  udp_is : udp_at built d ≡ d + 34
  udp_is = udp_at_is d built built_first

  behind : (a : ℕ) → d + 42 ≤ a → built a ≡ w a
  behind a h =
      fill_udp_other e (d + 34) (length bs) with_ip a (inr (omega arith))
      ∙ fill_ip_other e (ip_at d) (length bs) w a (inr (omega (arith, ip_is)))

  length_is : Udp.get_payload_length built (d + 34) ≡ length bs
  unfolding Udp.get_payload_length
  length_is =
      let small : (length bs + 8) % 65536 ≡ length bs + 8 = omega (arith, short) in
      let back : swap16 (swap16 ((length bs + 8) % 65536)) ≡ (length bs + 8) % 65536 =
        swap16-swap16 ((length bs + 8) % 65536) (omega arith) in
      let read : swap16 (read16 built (d + 34 + 4)) ≡ length bs + 8 =
        ap (λ (x : ℕ). swap16 x) (fill_udp_len e (d + 34) (length bs) with_ip) ∙ back ∙ small in
      ap (λ (x : ℕ). (x + 65536 - 8) % 65536) read ∙ omega (arith, short)

  payload_is : udp_payload d built ≡ bs
  unfolding udp_payload
  payload_is =
      rw (udp_is, length_is)
        (ap (λ (p : ℕ). read_bytes (length bs) p built) (shift d)
          ∙ read_bytes_same (length bs) (d + 42) built w behind
          ∙ there)

  pub built-Carries : Carries e d bs built
  unfolding Ipv4.get_src_ip Ipv4.get_dst_ip Ipv4.src_ip Ipv4.dst_ip Ipv4.proto Udp.get_src_port
      Udp.get_dst_port Udp.src_port Udp.dst_port
  built-Carries = record {
    src_ip =
        ap (λ (x : ℕ). swap32 x)
          (in_ip32 (ip_at d + 12) (omega (arith, ip_is)) ∙ fill_ip_src e (ip_at d) (length bs) w)
        ∙ swap32-swap32 e.local_ip sized.local_ip;
    dst_ip =
        ap (λ (x : ℕ). swap32 x)
          (in_ip32 (ip_at d + 16) (omega (arith, ip_is)) ∙ fill_ip_dst e (ip_at d) (length bs) w)
        ∙ swap32-swap32 e.remote_ip sized.remote_ip;
    src_port =
        ap (λ (x : ℕ). swap16 (read16 built x)) udp_is
        ∙ ap (λ (x : ℕ). swap16 x) (fill_udp_src e (d + 34) (length bs) with_ip)
        ∙ swap16-swap16 e.local_port sized.local_port;
    dst_port =
        ap (λ (x : ℕ). swap16 (read16 built (x + 2))) udp_is
        ∙ ap (λ (x : ℕ). swap16 x) (fill_udp_dst e (d + 34) (length bs) with_ip)
        ∙ swap16-swap16 e.remote_port sized.remote_port;
    proto = in_ip (ip_at d + 9) (omega (arith, ip_is)) ∙ fill_ip_proto e (ip_at d) (length bs) w;
    payload = payload_is;
  }

-- The start of the IP header.
pub usual_first : (ip : ℕ) (m : Bytes) → usual_ip ip m ip ≡ 69
unfolding usual_ip Ipv4.set_ihl Ipv4.set_version
usual_first ip m = ground arith

pub usual_other : (ip : ℕ) (m : Bytes) (a : ℕ) → ip < a → usual_ip ip m a ≡ m a
unfolding usual_ip Ipv4.set_ihl Ipv4.set_version
usual_other ip m a h = ground arith

-- The link header.
addr_other : (p : ℕ) (f : ℕ → ℕ) (m : Bytes) (a : ℕ) → p + 6 ≤ a → Ethernet.copy_addr p f m a ≡ m a
unfolding Ethernet.copy_addr
addr_other p f m a h = ground arith

pub type_other : (d t : ℕ) (m : Bytes) (a : ℕ) → d + 14 ≤ a → Ethernet.set_ethertype d t m a ≡ m a
unfolding Ethernet.set_ethertype
type_other d t m a h = write16-byte-Apart a (d + 12) (swap16 t) m (inl (omega arith))

module _ (s : Server) (sized : Sized s.ends) (d : ℕ) (bs : List ℕ) (short : length bs + 8 < 65536)
    (m : Bytes) where
  abbrev started : Bytes
  started = usual_ip (ip_at d) m

  started_udp : udp_at started d ≡ d + 34
  started_udp = udp_at_is d started (usual_first (ip_at d) m)

  abbrev loaded : Bytes
  loaded = write_bytes (d + 42) bs started

  ip_is14 : ip_at d ≡ d + 14
  unfolding ip_at
  ip_is14 = refl

  abbrev linked : Bytes
  linked =
      Ethernet.set_ethertype d 2048
        (Ethernet.set_src_addr d s.local_mac (Ethernet.set_dst_addr d s.remote_mac loaded))

  linked_other : (a : ℕ) → d + 14 ≤ a → linked a ≡ loaded a
  unfolding Ethernet.set_src_addr Ethernet.set_dst_addr
  linked_other a h =
      let m1 : Bytes = Ethernet.copy_addr d s.remote_mac loaded in
      let m2 : Bytes = Ethernet.copy_addr (d + 6) s.local_mac m1 in
      type_other d 2048 m2 a h
      ∙ addr_other (d + 6) s.local_mac m1 a (omega arith)
      ∙ addr_other d s.remote_mac loaded a (omega arith)

  abbrev linked_late : Bytes
  linked_late =
      Ethernet.set_src_addr d s.local_mac
        (Ethernet.set_dst_addr d s.remote_mac (Ethernet.set_ethertype d 2048 loaded))

  linked_late_other : (a : ℕ) → d + 14 ≤ a → linked_late a ≡ loaded a
  unfolding Ethernet.set_src_addr Ethernet.set_dst_addr
  linked_late_other a h =
      let m1 : Bytes = Ethernet.set_ethertype d 2048 loaded in
      let m2 : Bytes = Ethernet.copy_addr d s.remote_mac m1 in
      addr_other (d + 6) s.local_mac m2 a (omega arith)
      ∙ addr_other d s.remote_mac m1 a (omega arith)
      ∙ type_other d 2048 loaded a h

  at_data :
      (w : Bytes) → ((a : ℕ) → d + 42 ≤ a → w a ≡ loaded a) → read_bytes (length bs) (d + 42) w ≡ bs
  at_data w same =
      read_bytes_same (length bs) (d + 42) w loaded same
      ∙ read_bytes-write_bytes (d + 42) bs started

  first_packet_is :
      first_packet s d bs m
      ≡ fill_udp s.ends
          (d + 34)
          (length bs)
          (fill_ip s.ends (ip_at d) (length bs) (usual_ip (ip_at d) linked))
  unfolding first_packet
  first_packet_is = rw (started_udp, shift d) refl

  extra_packet_is :
      extra_packet s d bs m
      ≡ fill_udp s.ends (d + 34) (length bs) (fill_ip s.ends (ip_at d) (length bs) linked_late)
  unfolding extra_packet
  extra_packet_is = rw (started_udp, shift d) refl

  first_packet-Carries : Carries s.ends d bs (first_packet s d bs m)
  first_packet-Carries = rw first_packet_is (
      built-Carries s.ends sized d bs short (usual_ip (ip_at d) linked)
        (usual_first (ip_at d) linked)
        (at_data (usual_ip (ip_at d) linked) (λ a h.
          usual_other (ip_at d) linked a (omega (arith, ip_is14)) ∙ linked_other a (omega arith))))

  extra_packet-Carries : Carries s.ends d bs (extra_packet s d bs m)
  extra_packet-Carries = rw extra_packet_is (
      built-Carries s.ends sized d bs short linked_late
        (linked_late_other (ip_at d) (omega (arith, ip_is14))
          ∙ write_bytes_below (d + 42) bs started (ip_at d) (omega (arith, ip_is14))
          ∙ usual_first (ip_at d) m)
        (at_data linked_late (λ a h. linked_late_other a (omega arith))))

  -- The first packet that the server fills and the further ones say the same, whatever was in the
  -- buffer: read back by the getters, where their own header says that the UDP header is, they
  -- have the server's addresses and ports as the source, the peer's as the destination, the
  -- protocol UDP and the given bytes as their payload. Conditions: addresses and ports have their
  -- widths, and the payload with its header is shorter than 2^16 bytes.
  pub packets_carry :
      Carries s.ends d bs (first_packet s d bs m) × Carries s.ends d bs (extra_packet s d bs m)
  packets_carry = (first_packet-Carries, extra_packet-Carries)
