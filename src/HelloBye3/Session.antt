-- ===== src/HelloBye3/Session.antt =====
-- A client and a server that speak with each other.
use moon_state.Prelude.{ℕ, ◌+◌, ◌<◌, ◌≤◌, ◌≡◌, ◌∙◌, sym, ap, arith, Option, none, some}
use mathlib.Core.Path.{subst}
use moon_state.Fault.{ok, ok-injective}
use moon_state.BufArray.{Ptr}
use moon_state.Headers.Ipv4
use moon_state.Machine.Types.{Iface}
use moon_state.Hello.Heap.{Heap, World}
use moon_state.Hello.Packet.{
  ip_at, msg_at, Message, message, role_client, role_server, msg_hello, msg_bye,
}
use moon_state.Hello.Turn.{IsBytes}
use moon_state.Hello.Rules.{Verdict, reply, Replied, Obeys}
use moon_state.HelloBye3.Server.{Cookies}
use moon_state.HelloBye3.Server
use moon_state.HelloBye3.Client.{Client}
use moon_state.HelloBye3.Client
use moon_state.HelloBye3.ServerRules.{hello_rule, Small, run_hello-Obeys, run_bye-Obeys}
use moon_state.HelloBye3.ServerRules
use moon_state.HelloBye3.ClientRules.{client_bye-Obeys}
use moon_state.HelloBye3.ClientRules

-- The message in the packet `pkt`.
abbrev pub carried : {K F H : Type 0} → (Ptr → ℕ) → Ptr → Iface K F (World H) → Message
carried data_at pkt i = message i.world.mem (msg_at i.world.mem (data_at pkt))

-- The message `v` arrives, in a valid packet, at a connection with the object `o`.
pub record Arrives {K F O H : Type 0} (heap : Heap O H) (data_at : Ptr → ℕ) (o : O) (v : Message)
    (pkt : Ptr) (i : Iface K F (World H)) : Type 0 where
  pub live : heap.load i.state.state_data i.world.heap ≡ some o
  pub carries : carried data_at pkt i ≡ v
  pub is_bytes : IsBytes i.world.mem
  pub five : 5 ≤ Ipv4.ihl i.world.mem (ip_at (data_at pkt))

-- The rules, on the messages of a run without errors.
hello_rule_client :
    (s : Cookies) (k : ℕ)
    → hello_rule s (record { role = role_client; kind = msg_hello; cookie = k })
      ≡ reply
          (record { role = role_server; kind = msg_hello; cookie = s.server_cookie })
          (some (record { client_cookie = k; server_cookie = s.server_cookie }))
          Server.bye
unfolding hello_rule
hello_rule_client s k = ground arith

server_bye_rule_client :
    (s : Cookies)
    → ServerRules.bye_rule s
        (record { role = role_client; kind = msg_bye; cookie = s.server_cookie })
      ≡ reply
          (record { role = role_server; kind = msg_bye; cookie = s.client_cookie })
          none
          Server.terminate
unfolding ServerRules.bye_rule
server_bye_rule_client s = ground arith

client_bye_rule_server :
    (c : Client) (k : ℕ)
    → ClientRules.bye_rule c (record { role = role_server; kind = msg_hello; cookie = k })
      ≡ reply
          (record { role = role_client; kind = msg_bye; cookie = k })
          (some (record c { server_cookie = k }))
          Client.recv_bye
unfolding ClientRules.bye_rule
client_bye_rule_server c k = ground arith

some-injective : {A : Type 0} {a b : A} → some a ≡ some b → a ≡ b
some-injective e = cc

module _ {K F O H : Type 0} (heap : Heap O H) (data_at : Ptr → ℕ) (terminate : ℕ) (pkt : Ptr)
    (i j : Iface K F (World H)) where
  -- The outcome where the rule says that there is an answer.
  by_rule :
      {r : Verdict O} {v : Message} {left : Option O} {n : ℕ}
      → r ≡ reply v left n
      → Obeys heap data_at terminate pkt i r j
      → Replied heap data_at terminate pkt i v left n j
  by_rule e o = subst (λ x. Obeys heap data_at terminate pkt i x j) e o

  -- The packet then carries the answer.
  carried_answer :
      {v : Message} {left : Option O} {n : ℕ}
      → Replied heap data_at terminate pkt i v left n j
      → carried data_at pkt j ≡ v
  carried_answer r = ap (message j.world.mem) r.answered.at_same ∙ r.answered.sent

module _ {K F H : Type 0} (data_at : Ptr → ℕ) where
  module _ (heap : Heap Cookies H) (s : Cookies) (small : Small s) (pkt : Ptr)
      (i j : Iface K F (World H)) where
    greets :
        (k : ℕ)
        → Arrives heap data_at s (record { role = role_client; kind = msg_hello; cookie = k }) pkt i
        → Server.run_hello heap data_at pkt i ≡ ok j
        → Replied heap data_at Server.terminate pkt i
            (record { role = role_server; kind = msg_hello; cookie = s.server_cookie })
            (some (record { client_cookie = k; server_cookie = s.server_cookie }))
            Server.bye
            j
    greets k a r =
        let (j', r', o) = run_hello-Obeys heap data_at pkt i s a.live small a.is_bytes a.five in
        let same : j' ≡ j = ok-injective (sym r' ∙ r) in
        by_rule heap data_at Server.terminate pkt i j
          (ap (hello_rule s) a.carries ∙ hello_rule_client s k)
          (subst
            (λ x.
              Obeys heap data_at Server.terminate pkt i (hello_rule s (carried data_at pkt i)) x)
            same o)

  module _ (heap : Heap Client H) (c : Client) (pkt : Ptr) (i j : Iface K F (World H)) where
    answers :
        (k : ℕ)
        → Arrives heap data_at c (record { role = role_server; kind = msg_hello; cookie = k }) pkt i
        → Client.run_bye heap data_at pkt i ≡ ok j
        → Replied heap data_at Client.terminate pkt i
            (record { role = role_client; kind = msg_bye; cookie = k })
            (some (record c { server_cookie = k }))
            Client.recv_bye
            j
    answers k a r =
        let (j', r', o) = client_bye-Obeys heap data_at pkt i c a.live a.is_bytes a.five in
        let same : j' ≡ j = ok-injective (sym r' ∙ r) in
        by_rule heap data_at Client.terminate pkt i j
          (ap (ClientRules.bye_rule c) a.carries ∙ client_bye_rule_server c k)
          (subst
            (λ x.
              Obeys heap data_at Client.terminate pkt i
                (ClientRules.bye_rule c (carried data_at pkt i)) x)
            same o)

  cookie-lt :
      {O : Type 0} (heap : Heap O H) (o : O) (v : Message) (pkt : Ptr) (i : Iface K F (World H))
      → Arrives heap data_at o v pkt i
      → v.cookie < 256
  unfolding message
  cookie-lt heap o v pkt i a =
      let e : i.world.mem (msg_at i.world.mem (data_at pkt) + 10) ≡ v.cookie =
        ap (λ (x : Message). x.cookie) a.carries in
      omega (arith, e, a.is_bytes (msg_at i.world.mem (data_at pkt) + 10))

-- A message that arrives, with what it was when it was sent.
retold :
    {K F O H : Type 0} {heap : Heap O H} {data_at : Ptr → ℕ} {o : O} {v w : Message} {pkt : Ptr}
    {i : Iface K F (World H)}
    → v ≡ w
    → Arrives heap data_at o v pkt i
    → Arrives heap data_at o w pkt i
retold e a = record { live = a.live; carries = a.carries ∙ e; is_bytes = a.is_bytes; five = a.five }

module _ {K F G H : Type 0} (server_at client_at : Ptr → ℕ) (server_heap : Heap Cookies H)
    (client_heap : Heap Client G) (s : Cookies) (small : Small s) (c : Client) where
  -- A client and a server that speak with each other finish: if the client's hello reaches the
  -- server, the packet in which the server answered reaches the client, and the packet in which
  -- the client answered that reaches the server, then the server's `runBye` returns, takes the
  -- client's bye as right, answers it by a bye with the client's own cookie and ends the
  -- connection with its object deleted. Conditions: each packet arrives with the message that it
  -- was sent with, in bytes of memory and with an IP header of at least five words, at a
  -- connection whose object exists; for the second packet to the server it is the object that the
  -- first left; the server's cookies fit a byte; and the two functions before returned.
  pub session :
      (p1 : Ptr) (i1 j1 : Iface K F (World H))
      → Arrives server_heap server_at s
          (record { role = role_client; kind = msg_hello; cookie = c.client_cookie })
          p1
          i1
      → Server.run_hello server_heap server_at p1 i1 ≡ ok j1
      → (p2 : Ptr) (i2 j2 : Iface K F (World G))
      → Arrives client_heap client_at c (carried server_at p1 j1) p2 i2
      → Client.run_bye client_heap client_at p2 i2 ≡ ok j2
      → (p3 : Ptr) (i3 : Iface K F (World H)) (s' : Cookies)
      → server_heap.load i1.state.state_data j1.world.heap ≡ some s'
      → Arrives server_heap server_at s' (carried client_at p2 j2) p3 i3
      → (j3 : Iface K F (World H)) × (Server.run_bye server_heap server_at p3 i3 ≡ ok j3)
        × Replied server_heap server_at Server.terminate p3 i3
            (record { role = role_server; kind = msg_bye; cookie = c.client_cookie })
            none
            Server.terminate
            j3
  session p1 i1 j1 a1 r1 p2 i2 j2 a2 r2 p3 i3 s' kept a3 =
      let g = greets server_at server_heap s small p1 i1 j1 c.client_cookie a1 r1 in
      let told = carried_answer server_heap server_at Server.terminate p1 i1 j1 g in
      let b = answers client_at client_heap c p2 i2 j2 s.server_cookie (retold told a2) r2 in
      let back = carried_answer client_heap client_at Client.terminate p2 i2 j2 b in
      let t : Cookies = record {
        client_cookie = c.client_cookie;
        server_cookie = s.server_cookie;
      } in
      let same : s' ≡ t = some-injective (sym kept ∙ g.object) in
      let a = retold back (
        subst (λ (x : Cookies). Arrives server_heap server_at x (carried client_at p2 j2) p3 i3)
          same a3) in
      let fits : Small t = record {
        client = cookie-lt server_at server_heap s _ p1 i1 a1;
        server = small.server;
      } in
      let (j3, r3, o) = run_bye-Obeys server_heap server_at p3 i3 t a.live fits a.is_bytes a.five in
      (
        j3,
        r3,
        by_rule server_heap server_at Server.terminate p3 i3 j3
            (ap (ServerRules.bye_rule t) a.carries ∙ server_bye_rule_client t) o,
      )
