-- ===== src/HelloBye/Exchange.antt =====
-- All four packets of a client and a server of HelloBye.
use moon_state.Prelude.{ℕ, ◌<◌, ◌≡◌, ◌∙◌, sym, ap, true, false, some, List}
use moon_state.Prelude.Int.{pos}
use moon_state.Fault.{ok}
use moon_state.BufArray.{Ptr}
use moon_state.Headers.Bytes.{Bytes}
use moon_state.Machine.Types.{Iface}
use moon_state.Hello.Heap.{Heap, World}
use moon_state.Hello.Packet.{msg_at}
use moon_state.Hello.Moves.{Roomy}
use moon_state.HelloBye.Text.{is_text, line}
use moon_state.HelloBye.Objects.{
  Pair, Greeter, Object, server_hello, server_bye, client_object, set_server_cookie,
}
use moon_state.HelloBye.Server.{client_hello_text}
use moon_state.HelloBye.Server
use moon_state.HelloBye.Client
use moon_state.HelloBye.Spoken.{Spoken}
use moon_state.HelloBye.Session.{Says, Reaches, greets, parts, answers, keeps, ends}

-- The packet `q` arrives at `k` with every text that the packet `p` of `j` was left with.
abbrev pub Delivered :
    {K F G H : Type 0}
    → (Ptr → ℕ)
    → Ptr
    → Iface K F (World G)
    → (Ptr → ℕ)
    → Ptr
    → Iface K F (World H)
    → Type 0
Delivered at p j to q k =
    (s : List ℕ)
    → is_text (msg_at j.world.mem (at p)) s j.world.mem ≡ true
    → is_text (msg_at k.world.mem (to q)) s k.world.mem ≡ true

-- The text of an answer, where the packet has it now.
some-injective : {A : Type 0} {a b : A} → some a ≡ some b → a ≡ b
some-injective e = cc

pub spoken_text :
    {s : List ℕ} {m n : Bytes} {d : ℕ} → Spoken s m d n → is_text (msg_at n d) s n ≡ true
spoken_text {s} {n = n} x = ap (λ p. is_text p s n) x.at_same ∙ x.said

module _ {K F G H : Type 0} (server_at client_at : Ptr → ℕ) (server_heap : Heap Object H)
    (client_heap : Heap Object G) (room : Roomy server_heap) (o : Pair) (g : Greeter) (s c : ℕ)
    (server_digit : s < 10) (client_digit : c < 10) (server_cookie : o.server_cookie ≡ pos s)
    (client_cookie : g.client_cookie ≡ pos c) where
  -- A client and a server of HelloBye that speak with each other both come to the end, whatever
  -- digits their cookies are: the client's hello reaches the server, the packet in which the
  -- server answers reaches the client, the client's answer to it the server, and the server's
  -- answer to that the client. Then the client's last function returns, marks the packet to be
  -- freed and ends the connection, and the server's connection has ended too. Conditions: the
  -- client's hello carries the client's cookie, and each further packet arrives with every text
  -- that the packet before was left with; all packets are in bytes of memory and have an IP
  -- header of at least five words; at its second packet each connection has the object that its
  -- first packet left behind its pointer; there is memory for a new object of the server; and the
  -- three functions before returned.
  pub exchange :
      (p1 : Ptr) (i1 j1 : Iface K F (World H))
      → Reaches server_heap server_at p1 i1 (server_hello o)
      → Says server_heap server_at p1 i1 (line client_hello_text (pos c))
      → Server.run_hello server_heap server_at p1 i1 ≡ ok j1
      → (p2 : Ptr) (i2 j2 : Iface K F (World G))
      → Reaches client_heap client_at p2 i2 (client_object g)
      → Delivered server_at p1 j1 client_at p2 i2
      → Client.run_bye client_heap client_at p2 i2 ≡ ok j2
      → (p3 : Ptr) (i3 j3 : Iface K F (World H)) (a : Object)
      → server_heap.load j1.state.state_data j1.world.heap ≡ some a
      → Reaches server_heap server_at p3 i3 a
      → Delivered client_at p2 j2 server_at p3 i3
      → Server.run_bye server_heap server_at p3 i3 ≡ ok j3
      → (p4 : Ptr) (i4 : Iface K F (World G)) (b : Object)
      → client_heap.load j2.state.state_data j2.world.heap ≡ some b
      → Reaches client_heap client_at p4 i4 b
      → Delivered server_at p3 j3 client_at p4 i4
      → (j4 : Iface K F (World G)) × (Client.run_recv_bye client_heap client_at p4 i4 ≡ ok j4)
        × (j4.state.state ≡ Client.terminate)
        × (j4.send_pkt ≡ false)
        × (j3.state.state ≡ Server.terminate)
  exchange p1 i1 j1 r1 says ran1 p2 i2 j2 r2 d2 ran2 p3 i3 j3 a has_a r3 d3 ran3 p4 i4 b has_b r4
        d4 =
      let hello = greets server_heap server_at p1 i1 o r1 c client_digit says room ran1 in
      let heard = d2 _ (rw server_cookie at (spoken_text hello.answered.spoken)) in
      let bye = answers client_heap client_at p2 i2 g r2 s server_digit heard ran2 in
      let kept = keeps client_heap client_at p2 i2 g r2 s server_digit heard ran2 in
      let told = d3 _ (spoken_text bye.mem.spoken) in
      let is_a : a ≡ server_bye (record o { client_cookie = pos c }) =
        some-injective (sym has_a ∙ hello.live) in
      let is_b : b ≡ client_object (set_server_cookie (pos s) g) =
        some-injective (sym has_b ∙ kept) in
      let part =
        parts server_heap server_at p3 i3 (record o { client_cookie = pos c }) (rw is_a at r3) s
          server_digit server_cookie told ran3 in
      let (j4, ran4, end) =
        ends client_heap client_at p4 i4 (set_server_cookie (pos s) g) (rw is_b at r4) c
          client_digit same_client (d4 _ (spoken_text part.mem.spoken)) in
      (j4, ran4, end.state, end.decided, part.state)
    where
      same_client : (set_server_cookie (pos s) g).client_cookie ≡ pos c
      same_client = unfold set_server_cookie in client_cookie
