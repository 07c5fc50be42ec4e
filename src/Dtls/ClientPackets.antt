-- ===== src/Dtls/ClientPackets.antt =====
-- The packets that the DTLS client builds: right where the buffer happens to hold a header length
-- of five words already, misplaced otherwise.
use moon_state.Prelude.{ℕ, ◌+◌, ◌<◌, ◌≤◌, ◌≡◌, ◌∙◌, refl, ap, inl, inr, arith, List, length}
use moon_state.Headers.Bytes.{Bytes}
use moon_state.Headers.Ethernet
use moon_state.Headers.Ipv4
use moon_state.Hello.Packet.{ip_at, udp_at}
use moon_state.Hello.First.{udp_at_is}
use moon_state.Tcp.Packet.{read_bytes, write_bytes}
use moon_state.Dtls.Store.{fill_ip, fill_udp, usual_ip}
use moon_state.Dtls.Client.{Client, packet}
use moon_state.Dtls.Packets.{
  Sized, Carries, write_bytes_below, read_bytes_same, read_bytes-write_bytes, fill_ip_other,
  fill_udp_other,
}
use moon_state.Dtls.Carried.{built-Carries, usual_first, usual_other, type_other, shift}

module _ (c : Client) (d : ℕ) (bs : List ℕ) (m : Bytes) where
  ip_is : ip_at d ≡ d + 14
  unfolding ip_at
  ip_is = refl

  abbrev udp : ℕ
  udp = udp_at m d

  abbrev loaded : Bytes
  loaded = write_bytes (udp + 8) bs m

  abbrev typed : Bytes
  typed = Ethernet.set_ethertype d 2048 loaded

  abbrev with_ip : Bytes
  with_ip = fill_ip c.ends (ip_at d) (length bs) (usual_ip (ip_at d) typed)

  packet_is : packet c d bs m ≡ fill_udp c.ends udp (length bs) with_ip
  unfolding packet
  packet_is = refl

  -- With a header of five words, the packet says what it should.
  module _ (sized : Sized c.ends) (short : length bs + 8 < 65536)
      (five : Ipv4.ihl m (ip_at d) ≡ 5) where
    udp_is : udp ≡ d + 34
    unfolding udp_at Ipv4.get_payload
    udp_is = omega (arith, five, ip_is)

    abbrev typed5 : Bytes
    typed5 = Ethernet.set_ethertype d 2048 (write_bytes (d + 42) bs m)

    packet_five :
        packet c d bs m
        ≡ fill_udp c.ends
            (d + 34)
            (length bs)
            (fill_ip c.ends (ip_at d) (length bs) (usual_ip (ip_at d) typed5))
    packet_five = packet_is ∙ rw (udp_is, shift d) refl

    there : read_bytes (length bs) (d + 42) (usual_ip (ip_at d) typed5) ≡ bs
    there =
        read_bytes_same (length bs) (d + 42) (usual_ip (ip_at d) typed5) (write_bytes (d + 42) bs m)
          (λ a h.
            usual_other (ip_at d) typed5 a (omega (arith, ip_is))
            ∙ type_other d 2048 (write_bytes (d + 42) bs m) a (omega arith))
        ∙ read_bytes-write_bytes (d + 42) bs m

    pub packet-Carries : Carries c.ends d bs (packet c d bs m)
    packet-Carries = rw packet_five (
        built-Carries c.ends sized d bs short (usual_ip (ip_at d) typed5)
          (usual_first (ip_at d) typed5) there)

  -- With a header of at least seven, the bytes where its own header says that the UDP header is are
  -- those that the buffer had before.
  module _ (long : 7 ≤ Ipv4.ihl m (ip_at d)) where
    far : d + 42 ≤ udp
    unfolding udp_at Ipv4.get_payload
    far = omega (arith, long, ip_is)

    first : packet c d bs m (ip_at d) ≡ 69
    first =
        ap (λ (k : Bytes). k (ip_at d)) packet_is
        ∙ fill_udp_other c.ends udp (length bs) with_ip (ip_at d) (inl (omega (arith, far, ip_is)))
        ∙ fill_ip_other c.ends (ip_at d) (length bs) (usual_ip (ip_at d) typed) (ip_at d)
            (inl (omega arith))
        ∙ usual_first (ip_at d) typed

    -- Where a client's buffer holds a header length of at least seven words from what it held
    -- before, the packet that is built in it is broken: by its own header the UDP header is at
    -- the usual place, and there the bytes are those that the buffer had before.
    pub packet_misplaced :
        (udp_at (packet c d bs m) d ≡ d + 34)
        × ((a : ℕ) → d + 34 ≤ a → a < d + 42 → packet c d bs m a ≡ m a)
    packet_misplaced = (
      udp_at_is d (packet c d bs m) first,
      λ a l h.
          ap (λ (k : Bytes). k a) packet_is
          ∙ fill_udp_other c.ends udp (length bs) with_ip a (inl (omega (arith, far)))
          ∙ fill_ip_other c.ends (ip_at d) (length bs) (usual_ip (ip_at d) typed) a
              (inr (omega (arith, ip_is)))
          ∙ usual_other (ip_at d) typed a (omega (arith, ip_is))
          ∙ type_other d 2048 loaded a (omega arith)
          ∙ write_bytes_below (udp + 8) bs m a (omega (arith, far)),
    )
