-- ===== src/HelloBye/Spoken.antt =====
-- A packet with a text behind its headers, which goes back to where it came from.
use moon_state.Prelude.{ℕ, ◌+◌, ◌*◌, ◌%◌, ◌<◌, ◌≤◌, ◌≡◌, ◌∙◌, arith, ap, true, List, length}
use moon_state.Prelude.Int.{ℤ}
use moon_state.Headers.Bytes.{Bytes, write8, read16, write16, read32, write32}
use moon_state.Headers.Ipv4
use moon_state.Headers.Udp
use moon_state.Hello.Packet.{ip_at, udp_at, msg_at, turn, zeroed}
use moon_state.Hello.Turn.{IsBytes, Turned, turn-Turned}
use moon_state.Hello.First.{same32}
use moon_state.HelloBye.Text.{
  is_text, write_text, line, AllBytes, line-AllBytes, write_text_below, write_text_behind,
  is_text-write_text, is_text_same, write_text-IsBytes,
}
use moon_state.HelloBye.Server.{text_answer, client_bye_text}
use moon_state.HelloBye.Client.{bye_answer}

-- The packet at `d` of the memory `m` has become one with the text `s`, on its way back.
pub record Spoken (s : List ℕ) (m : Bytes) (d : ℕ) (n : Bytes) : Type 0 where
  pub at_same : msg_at n d ≡ msg_at m d
  pub said : is_text (msg_at m d) s n ≡ true
  pub src_ip : Ipv4.src_ip n (ip_at d) ≡ Ipv4.dst_ip m (ip_at d)
  pub dst_ip : Ipv4.dst_ip n (ip_at d) ≡ Ipv4.src_ip m (ip_at d)
  pub src_port : Udp.src_port n (udp_at m d) ≡ Udp.dst_port m (udp_at m d)
  pub dst_port : Udp.dst_port n (udp_at m d) ≡ Udp.src_port m (udp_at m d)
  pub start : (a : ℕ) → a < ip_at d + 8 → n a ≡ m a
  pub proto : Ipv4.proto n (ip_at d) ≡ Ipv4.proto m (ip_at d)
  pub is_bytes : IsBytes n

-- The same, where no byte has changed behind the text and behind the twenty bytes that are cleared.
pub record SpokenInPlace (s : List ℕ) (m : Bytes) (d : ℕ) (n : Bytes) : Type 0 where
  pub spoken : Spoken s m d n
  pub behind : (a : ℕ) → msg_at m d + length s ≤ a → msg_at m d + 20 ≤ a → n a ≡ m a

-- Writes leave bytes.
module _ (m : Bytes) (b : IsBytes m) (p v : ℕ) where
  pub write8-IsBytes : v < 256 → IsBytes (write8 p v m)
  write8-IsBytes h a = ground (arith, b a)

  pub write16-IsBytes : IsBytes (write16 p v m)
  write16-IsBytes a = ground (arith, b a)

  pub write32-IsBytes : IsBytes (write32 p v m)
  write32-IsBytes a = ground (arith, b a)

turn-IsBytes : (ip udp : ℕ) (m : Bytes) → IsBytes m → IsBytes (turn ip udp m)
unfolding turn
turn-IsBytes ip udp m b =
    let m1 : Bytes = write8 (ip + 8) 64 m in
    let b1 : IsBytes m1 = λ a. ground (arith, b a) in
    let m2 : Bytes = write32 (ip + 16) (Ipv4.src_ip m1 ip) m1 in
    let b2 = write32-IsBytes m1 b1 (ip + 16) (Ipv4.src_ip m1 ip) in
    let m3 : Bytes = write32 (ip + 12) (Ipv4.dst_ip m1 ip) m2 in
    let b3 = write32-IsBytes m2 b2 (ip + 12) (Ipv4.dst_ip m1 ip) in
    let m4 : Bytes = write16 (ip + 10) 0 m3 in
    let b4 = write16-IsBytes m3 b3 (ip + 10) 0 in
    let m5 : Bytes = write16 (udp + 6) 0 m4 in
    let b5 = write16-IsBytes m4 b4 (udp + 6) 0 in
    let m6 : Bytes = write16 (udp + 2) (Udp.src_port m5 udp) m5 in
    let b6 = write16-IsBytes m5 b5 (udp + 2) (Udp.src_port m5 udp) in
    write16-IsBytes m6 b6 udp (Udp.dst_port m5 udp)

-- The same, for any memory `w` that has the text and the old headers.
module _ (s : List ℕ) (m w : Bytes) (d : ℕ) (five : 5 ≤ Ipv4.ihl m (ip_at d)) (b : IsBytes w)
    (below : (a : ℕ) → a < msg_at m d → w a ≡ m a)
    (above : (a : ℕ) → msg_at m d + length s ≤ a → msg_at m d + 20 ≤ a → w a ≡ m a)
    (said : is_text (msg_at m d) s w ≡ true) where
  abbrev sent : Bytes
  sent = turn (ip_at d) (udp_at m d) w

  gap : ip_at d + 20 ≤ udp_at m d
  unfolding udp_at Ipv4.get_payload
  gap = omega (arith, five)

  turned : Turned (ip_at d) (udp_at m d) w sent
  turned = turn-Turned (ip_at d) (udp_at m d) w gap b

  start : (a : ℕ) → a < ip_at d + 8 → sent a ≡ m a
  unfolding msg_at
  start a h = turned.start a h ∙ below a (omega (arith, gap))

  same_udp : udp_at sent d ≡ udp_at m d
  unfolding udp_at Ipv4.get_payload Ipv4.ihl
  same_udp = ap (λ (x : ℕ). ip_at d + 4 * (x % 16)) (start (ip_at d) (omega arith))

  same_msg : msg_at sent d ≡ msg_at m d
  unfolding msg_at
  same_msg = ap (λ (x : ℕ). x + 8) same_udp

  field32 : (q : ℕ) → q + 4 ≤ udp_at m d → read32 w q ≡ read32 m q
  unfolding msg_at
  field32 q h =
      same32 w m q (below q (omega arith)) (below (q + 1) (omega arith))
        (below (q + 2) (omega arith)) (below (q + 2 + 1) (omega arith))

  field16 : (q : ℕ) → q + 2 ≤ udp_at m d + 4 → read16 w q ≡ read16 m q
  unfolding msg_at
  field16 q h =
      let low : w q ≡ m q = below q (omega arith) in
      let high : w (q + 1) ≡ m (q + 1) = below (q + 1) (omega arith) in cc

  turn-Spoken : Spoken s m d sent
  unfolding Ipv4.src_ip Ipv4.dst_ip Ipv4.proto Udp.src_port Udp.dst_port msg_at
  turn-Spoken = record {
    at_same = same_msg;
    said = is_text_same (msg_at m d) s sent w (λ a h. turned.payload a h) ∙ said;
    src_ip = turned.src_ip ∙ field32 (ip_at d + 16) (omega (arith, gap));
    dst_ip = turned.dst_ip ∙ field32 (ip_at d + 12) (omega (arith, gap));
    src_port = turned.src_port ∙ field16 (udp_at m d + 2) (omega arith);
    dst_port = turned.dst_port ∙ field16 (udp_at m d) (omega arith);
    start = start;
    proto = turned.proto ∙ below (ip_at d + 9) (omega (arith, gap));
    is_bytes = turn-IsBytes (ip_at d) (udp_at m d) w b;
  }

  pub turn-SpokenInPlace : SpokenInPlace s m d (turn (ip_at d) (udp_at m d) w)
  unfolding msg_at
  turn-SpokenInPlace = record {
    spoken = turn-Spoken;
    behind = λ a h l. turned.payload a (omega arith) ∙ above a h l;
  }

module _ (m : Bytes) (d : ℕ) (five : 5 ≤ Ipv4.ihl m (ip_at d)) (b : IsBytes m) where
  -- The server's answers.
  pub text_answer-SpokenInPlace :
      (s : List ℕ) (n : ℤ) → AllBytes s → SpokenInPlace (line s n) m d (text_answer (line s n) d m)
  unfolding text_answer
  text_answer-SpokenInPlace s n all =
      turn-SpokenInPlace (line s n) m (write_text (msg_at m d) (line s n) m) d five
        (write_text-IsBytes (msg_at m d) (line s n) m (line-AllBytes s n all) b)
        (λ a h. write_text_below (msg_at m d) (line s n) m a h)
        (λ a h l. write_text_behind (msg_at m d) (line s n) m a h)
        (is_text-write_text (msg_at m d) (line s n) m)

  zeroed-IsBytes : (p n : ℕ) → IsBytes (zeroed p n m)
  unfolding zeroed
  zeroed-IsBytes p n a = ground (arith, b a)

  zeroed_below : (p n a : ℕ) → a < p → zeroed p n m a ≡ m a
  unfolding zeroed
  zeroed_below p n a h = ground arith

  zeroed_above : (p n a : ℕ) → p + n ≤ a → zeroed p n m a ≡ m a
  unfolding zeroed
  zeroed_above p n a h = ground arith

  -- The client's answer.
  pub bye_answer-SpokenInPlace :
      (n : ℤ) → SpokenInPlace (line client_bye_text n) m d (bye_answer n d m)
  unfolding bye_answer client_bye_text
  bye_answer-SpokenInPlace n =
      let p : ℕ = msg_at m d in
      turn-SpokenInPlace (line client_bye_text n) m
        (write_text p (line client_bye_text n) (zeroed p 20 m)) d five
        (write_text-IsBytes p (line client_bye_text n) (zeroed p 20 m)
          (line-AllBytes client_bye_text n (omega arith)) (zeroed-IsBytes p 20))
        (λ a h.
          write_text_below p (line client_bye_text n) (zeroed p 20 m) a h ∙ zeroed_below p 20 a h)
        (λ a h l.
          write_text_behind p (line client_bye_text n) (zeroed p 20 m) a h ∙ zeroed_above p 20 a l)
        (is_text-write_text p (line client_bye_text n) (zeroed p 20 m))

-- The header of an answer is as long as that of the packet it answers.
module _ {s : List ℕ} {m n : Bytes} {d : ℕ} (x : Spoken s m d n) where
  pub ihl_same : Ipv4.ihl n (ip_at d) ≡ Ipv4.ihl m (ip_at d)
  unfolding Ipv4.ihl
  ihl_same = ap (λ (b : ℕ). b % 16) (x.start (ip_at d) (omega arith))

  pub udp_at_same : udp_at n d ≡ udp_at m d
  unfolding udp_at Ipv4.get_payload
  udp_at_same = ap (λ (b : ℕ). ip_at d + 4 * b) ihl_same
