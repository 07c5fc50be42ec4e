-- ===== src/Hello/Answer.antt =====
-- An answer: the message that was written, on its way back, in a packet of the same connection.
use moon_state.Prelude.{ℕ, ◌+◌, ◌*◌, ◌%◌, ◌<◌, ◌≤◌, ◌≡◌, refl, ap, ◌∙◌, arith}
use moon_state.Headers.Bytes.{Bytes, read16, read32}
use moon_state.Headers.Ethernet
use moon_state.Headers.Ipv4
use moon_state.Headers.Udp
use moon_state.Hello.Packet.{
  ip_at, udp_at, msg_at, ident, identify, Message, message, set_message, answer,
}
use moon_state.Hello.Turn.{IsBytes, Turned, turn-Turned}

-- The three fields fit their bytes.
pub record Fits (v : Message) : Type 0 where
  pub role : v.role < 256
  pub kind : v.kind < 256
  pub cookie : v.cookie < 256

module _ (v : Message) (m : Bytes) where
  -- What a valid packet becomes when it is answered. Its IP header has at least five words.
  pub record Answered (d : ℕ) (n : Bytes) : Type 0 where
    pub at_same : msg_at n d ≡ msg_at m d
    pub sent : message n (msg_at m d) ≡ v
    pub same_connection : identify n d ≡ identify m d
    pub src_ip : Ipv4.src_ip n (ip_at d) ≡ Ipv4.dst_ip m (ip_at d)
    pub dst_ip : Ipv4.dst_ip n (ip_at d) ≡ Ipv4.src_ip m (ip_at d)
    pub src_port : Udp.src_port n (udp_at m d) ≡ Udp.dst_port m (udp_at m d)
    pub dst_port : Udp.dst_port n (udp_at m d) ≡ Udp.src_port m (udp_at m d)
    pub start : (a : ℕ) → a < ip_at d + 8 → n a ≡ m a
    pub behind : (a : ℕ) → msg_at m d + 11 ≤ a → n a ≡ m a

module _ (v : Message) (fits : Fits v) (m : Bytes) where
  set_message-below : (p a : ℕ) → a < p + 8 → set_message p v m a ≡ m a
  unfolding set_message
  set_message-below p a h = ground arith

  set_message-above : (p a : ℕ) → p + 11 ≤ a → set_message p v m a ≡ m a
  unfolding set_message
  set_message-above p a h = ground arith

  set_message-IsBytes : (p : ℕ) → IsBytes m → IsBytes (set_message p v m)
  unfolding set_message
  set_message-IsBytes p b a = ground (arith, b a, fits.role, fits.kind)

  message-set_message : (p : ℕ) → message (set_message p v m) p ≡ v
  unfolding set_message message
  message-set_message p =
      let c : v.cookie % 256 ≡ v.cookie = omega (arith, fits.cookie) in
      let e1 : set_message p v m (p + 8) ≡ v.role = ground arith in
      let e2 : set_message p v m (p + 9) ≡ v.kind = ground arith in
      let e3 : set_message p v m (p + 10) ≡ v.cookie = ground (arith, c) in cc

  module _ (d : ℕ) (five : 5 ≤ Ipv4.ihl m (ip_at d)) (b : IsBytes m) where
    abbrev written : Bytes
    written = set_message (msg_at m d) v m

    gap : ip_at d + 20 ≤ udp_at m d
    unfolding udp_at Ipv4.get_payload
    gap = omega (arith, five)

    turned : Turned (ip_at d) (udp_at m d) written (answer v d m)
    unfolding answer
    turned = turn-Turned (ip_at d) (udp_at m d) written gap (set_message-IsBytes (msg_at m d) b)

    -- A byte before the message or behind its header is that of the packet that came in.
    start : (a : ℕ) → a < ip_at d + 8 → answer v d m a ≡ m a
    unfolding msg_at
    start a h = turned.start a h ∙ set_message-below (msg_at m d) a (omega (arith, gap))

    same_ihl : Ipv4.ihl (answer v d m) (ip_at d) ≡ Ipv4.ihl m (ip_at d)
    unfolding Ipv4.ihl
    same_ihl = ap (λ (x : ℕ). x % 16) (start (ip_at d) (omega arith))

    same_udp : udp_at (answer v d m) d ≡ udp_at m d
    unfolding udp_at Ipv4.get_payload
    same_udp = ap (λ (x : ℕ). ip_at d + 4 * x) same_ihl

    same_msg : msg_at (answer v d m) d ≡ msg_at m d
    unfolding msg_at
    same_msg = ap (λ (x : ℕ). x + 8) same_udp

    -- Behind the UDP header, the packet is as the message was written.
    behind : (a : ℕ) → msg_at m d ≤ a → answer v d m a ≡ written a
    unfolding msg_at
    behind a h = turned.payload a h

    word32 :
        (n k : Bytes) (q : ℕ)
        → n q ≡ k q
        → n (q + 1) ≡ k (q + 1)
        → n (q + 2) ≡ k (q + 2)
        → n (q + 2 + 1) ≡ k (q + 2 + 1)
        → read32 n q ≡ read32 k q
    word32 n k q e0 e1 e2 e3 = omega (arith, e0, e1, e2, e3)

    -- The eight bytes of the identity are not written.
    same_ident_byte : (a : ℕ) → msg_at m d ≤ a → a < msg_at m d + 8 → answer v d m a ≡ m a
    same_ident_byte a l h = behind a l ∙ set_message-below (msg_at m d) a h

    same_ident : ident (answer v d m) (msg_at m d) ≡ ident m (msg_at m d)
    unfolding ident
    same_ident =
        let p : ℕ = msg_at m d in
        let low : read32 (answer v d m) p ≡ read32 m p =
          word32 (answer v d m) m p (same_ident_byte p (omega arith) (omega arith))
            (same_ident_byte (p + 1) (omega arith) (omega arith))
            (same_ident_byte (p + 2) (omega arith) (omega arith))
            (same_ident_byte (p + 2 + 1) (omega arith) (omega arith)) in
        let high : read32 (answer v d m) (p + 4) ≡ read32 m (p + 4) =
          word32 (answer v d m) m (p + 4) (same_ident_byte (p + 4) (omega arith) (omega arith))
            (same_ident_byte (p + 4 + 1) (omega arith) (omega arith))
            (same_ident_byte (p + 4 + 2) (omega arith) (omega arith))
            (same_ident_byte (p + 4 + 2 + 1) (omega arith) (omega arith)) in
        cc

    same_ethertype : Ethernet.get_ethertype (answer v d m) d ≡ Ethernet.get_ethertype m d
    unfolding Ethernet.get_ethertype ip_at
    same_ethertype =
        let low : answer v d m (d + 12) ≡ m (d + 12) = start (d + 12) (omega arith) in
        let high : answer v d m (d + 12 + 1) ≡ m (d + 12 + 1) = start (d + 12 + 1) (omega arith) in
        cc

    same_proto : Ipv4.proto (answer v d m) (ip_at d) ≡ Ipv4.proto m (ip_at d)
    unfolding Ipv4.proto msg_at
    same_proto = turned.proto ∙ set_message-below (msg_at m d) (ip_at d + 9) (omega (arith, gap))

    -- A field of the headers, in the packet with the message, is that of the packet that came in.
    field32 : (q : ℕ) → q + 4 ≤ udp_at m d → read32 written q ≡ read32 m q
    unfolding msg_at
    field32 q h =
        word32 written m q (set_message-below (msg_at m d) q (omega arith))
          (set_message-below (msg_at m d) (q + 1) (omega arith))
          (set_message-below (msg_at m d) (q + 2) (omega arith))
          (set_message-below (msg_at m d) (q + 2 + 1) (omega arith))

    field16 : (q : ℕ) → q + 2 ≤ udp_at m d + 4 → read16 written q ≡ read16 m q
    unfolding msg_at
    field16 q h =
        let low : written q ≡ m q = set_message-below (msg_at m d) q (omega arith) in
        let high : written (q + 1) ≡ m (q + 1) =
          set_message-below (msg_at m d) (q + 1) (omega arith) in
        cc

    same_identify : identify (answer v d m) d ≡ identify m d
    unfolding identify
    same_identify = rw (same_ethertype, same_proto, same_msg, same_ident) refl

    same_message : message (answer v d m) (msg_at m d) ≡ v
    unfolding message
    same_message =
        let p : ℕ = msg_at m d in
        let e0 : answer v d m (p + 8) ≡ written (p + 8) = behind (p + 8) (omega arith) in
        let e1 : answer v d m (p + 9) ≡ written (p + 9) = behind (p + 9) (omega arith) in
        let e2 : answer v d m (p + 10) ≡ written (p + 10) = behind (p + 10) (omega arith) in
        let e : message (answer v d m) p ≡ message written p = cc in e ∙ message-set_message p

    pub answer-Answered : Answered v m d (answer v d m)
    unfolding Ipv4.src_ip Ipv4.dst_ip Udp.src_port Udp.dst_port
    answer-Answered = record {
      at_same = same_msg;
      sent = same_message;
      same_connection = same_identify;
      src_ip = turned.src_ip ∙ field32 (ip_at d + 16) (omega (arith, gap));
      dst_ip = turned.dst_ip ∙ field32 (ip_at d + 12) (omega (arith, gap));
      src_port = turned.src_port ∙ field16 (udp_at m d + 2) (omega arith);
      dst_port = turned.dst_port ∙ field16 (udp_at m d) (omega arith);
      start = start;
      behind = λ a h. behind a (omega arith) ∙ set_message-above (msg_at m d) a h;
    }
