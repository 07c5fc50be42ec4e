-- ===== src/HelloBye3/ServerRules.antt =====
-- The server follows the protocol.
use moon_state.Prelude.{
  ℕ, ◌%◌, ◌<◌, ◌≤◌, ◌≡◌, refl, ◌⊎◌, inl, inr, true, false, some, none, arith, ◌==◌, if◌then◌else◌,
  Bool-cases,
}
use moon_state.Fault.{ok}
use moon_state.BufArray.{Ptr}
use moon_state.Headers.Ipv4
use moon_state.Machine.Types.{Iface}
use moon_state.Machine.Iface.{transition, set_state_id}
use moon_state.Hello.Heap.{
  Heap, World, random_below, object, allocate_ok, save_self, save-other, drop_self, drop-other,
}
use moon_state.Hello.Packet.{
  ip_at, msg_at, Message, message, answer, role_client, role_server, msg_hello, msg_bye,
}
use moon_state.Hello.Turn.{IsBytes}
use moon_state.Hello.Answer.{answer-Answered}
use moon_state.Hello.Effects.{put_world, put_mem, put_heap, drop_object, refuse}
use moon_state.Hello.Rules.{Verdict, silent, reply, same_message, Replied, Obeys, refuse-Silent}
use moon_state.HelloBye3.Server.{Cookies, bye, terminate, factory, run_hello, run_bye}

-- The server answers a client's hello by its own, and remembers the client's cookie.
unfoldable pub hello_rule : Cookies → Message → Verdict Cookies
hello_rule s v =
    if same_message v (record { role = role_client; kind = msg_hello; cookie = v.cookie })
    then reply (record { role = role_server; kind = msg_hello; cookie = s.server_cookie })
        (some (record { client_cookie = v.cookie; server_cookie = s.server_cookie })) bye
    else silent

-- It answers a bye that has its own cookie by a bye with the client's, and that is the end.
unfoldable pub bye_rule : Cookies → Message → Verdict Cookies
bye_rule s v =
    if same_message v (record { role = role_client; kind = msg_bye; cookie = s.server_cookie })
    then reply (record { role = role_server; kind = msg_bye; cookie = s.client_cookie }) none
        terminate
    else silent

-- Both cookies fit the byte that a message has for them.
pub record Small (s : Cookies) : Type 0 where
  pub client : s.client_cookie < 256
  pub server : s.server_cookie < 256

module _ {H : Type 0} (heap : Heap Cookies H) (data_at : Ptr → ℕ) where
  -- `factory` returns a new object, whose cookies fit a byte.
  pub factory-Small :
      (w w' : World H) (p : Ptr)
      → factory heap data_at w ≡ ok (p, w')
      → (s : Cookies) × (heap.load p w'.heap ≡ some s) × Small s × (heap.load p w.heap ≡ none)
  unfolding factory random_below
  factory-Small w w' p h =
      let s : Cookies = record { client_cookie = 0; server_cookie = w.random w.randoms % 256 } in
      let (live, new) = allocate_ok heap s (random_below 256 w).1 w' p h in
      (s, live, record { client = omega arith; server = omega arith }, new)

module _ {K F H : Type 0} (heap : Heap Cookies H) (data_at : Ptr → ℕ) where
  module _ (pkt : Ptr) (i : Iface K F (World H)) (s : Cookies)
      (live : heap.load i.state.state_data i.world.heap ≡ some s) (small : Small s)
      (b : IsBytes i.world.mem) (five : 5 ≤ Ipv4.ihl i.world.mem (ip_at (data_at pkt))) where
    abbrev v : Message
    v = message i.world.mem (msg_at i.world.mem (data_at pkt))

    -- The outcome, by the verdict.
    by_verdict :
        {r : Verdict Cookies} (q : Verdict Cookies) (j : Iface K F (World H))
        → r ≡ q
        → Obeys heap data_at terminate pkt i q j
        → Obeys heap data_at terminate pkt i r j
    by_verdict q j e o = rw e o

    hello_refused : (v.role == 0) ≡ false ⊎ (v.kind == 0) ≡ false → hello_rule s v ≡ silent
    unfolding hello_rule
    hello_refused (inl e) = ground arith
    hello_refused (inr e) = ground arith

    hello_taken :
        (v.role == 0) ≡ true
        → (v.kind == 0) ≡ true
        → hello_rule s v
          ≡ reply
              (record { role = role_server; kind = msg_hello; cookie = s.server_cookie })
              (some (record { client_cookie = v.cookie; server_cookie = s.server_cookie }))
              bye
    unfolding hello_rule
    hello_taken e f = ground arith

    bye_refused :
        (v.role == 0) ≡ false ⊎ (v.kind == 1) ≡ false ⊎ (v.cookie == s.server_cookie) ≡ false
        → bye_rule s v ≡ silent
    unfolding bye_rule
    bye_refused (inl e) = ground arith
    bye_refused (inr (inl e)) = ground arith
    bye_refused (inr (inr e)) = ground arith

    bye_taken :
        (v.role == 0) ≡ true
        → (v.kind == 1) ≡ true
        → (v.cookie == s.server_cookie) ≡ true
        → bye_rule s v
          ≡ reply
              (record { role = role_server; kind = msg_bye; cookie = s.client_cookie })
              none
              terminate
    unfolding bye_rule
    bye_taken e f g = ground arith

    abbrev greeted : Iface K F (World H)
    greeted = transition bye (
        put_world
          (put_mem
            (answer (record { role = role_server; kind = msg_hello; cookie = s.server_cookie })
              (data_at pkt) i.world.mem)
            (put_heap
              (heap.save i.state.state_data (record s { client_cookie = v.cookie }) i.world.heap)
              i.world))
          i)

    greeted-Replied :
        Replied heap data_at terminate pkt i
          (record { role = role_server; kind = msg_hello; cookie = s.server_cookie })
          (some (record { client_cookie = v.cookie; server_cookie = s.server_cookie }))
          bye
          greeted
    unfolding put_world put_mem put_heap transition set_state_id
    greeted-Replied = record {
      keeps = record {
        conn_id = refl;
        bufs = refl;
        timers = refl;
        immediate_transition = refl;
        len = refl;
        others = λ q ne.
            save-other heap i.world.heap i.state.state_data (record s { client_cookie = v.cookie })
              q ne;
      };
      state = refl;
      decided = refl;
      object =
          save_self heap i.world.heap i.state.state_data (record s { client_cookie = v.cookie }) s
            live;
      answered =
          answer-Answered
            (record { role = role_server; kind = msg_hello; cookie = s.server_cookie })
            (record { role = omega arith; kind = omega arith; cookie = small.server }) i.world.mem
            (data_at pkt) five b;
    }

    -- The server's `runHello` returns and follows the rule of the protocol. A hello of a client
    -- is answered, in the same packet and on the way back (addresses and ports exchanged, the
    -- same connection for the identifier), by a hello of the server with the server's cookie; the
    -- client's cookie is remembered and the connection waits for the bye. On any other message
    -- nothing is answered: the object is deleted, the packet is to be freed and the state is the
    -- end state. No other object and no timeout changes, nor which packets the batch has and how
    -- they are marked, nor any length of a packet's data; of the memory, only bytes from the time
    -- to live in the packet's IP header up to the end of its message do. Conditions: the
    -- connection's object exists and its cookies fit a byte, the memory holds bytes, and the
    -- packet's IP header has at least five words.
    pub run_hello-Obeys :
        (j : Iface K F (World H)) × (run_hello heap data_at pkt i ≡ ok j)
        × Obeys heap data_at terminate pkt i (hello_rule s v) j
    unfolding run_hello object
    run_hello-Obeys = elim (Bool-cases (v.role == 0)) [
      | inr e ↦ (
        refuse heap terminate i,
        ground (arith, live, e),
        by_verdict silent (refuse heap terminate i) (hello_refused (inl e))
            (refuse-Silent heap data_at terminate pkt i),
      )
      | inl e ↦ elim (Bool-cases (v.kind == 0)) [
        | inr f ↦ (
          refuse heap terminate i,
          ground (arith, live, e, f),
          by_verdict silent (refuse heap terminate i) (hello_refused (inr f))
              (refuse-Silent heap data_at terminate pkt i),
        )
        | inl f ↦ (
          greeted,
          ground (arith, live, e, f),
          by_verdict _ greeted (hello_taken e f) greeted-Replied,
        )
      ]
    ]

    -- What a server that has the right cookie ends with.
    abbrev parted : Iface K F (World H)
    parted = drop_object heap (
        transition terminate (
          put_world
            (put_mem
              (answer (record { role = role_server; kind = msg_bye; cookie = s.client_cookie })
                (data_at pkt) i.world.mem)
              i.world)
            i))

    parted-Replied :
        Replied heap data_at terminate pkt i
          (record { role = role_server; kind = msg_bye; cookie = s.client_cookie })
          none
          terminate
          parted
    unfolding drop_object put_world put_mem put_heap transition set_state_id
    parted-Replied = record {
      keeps = record {
        conn_id = refl;
        bufs = refl;
        timers = refl;
        immediate_transition = refl;
        len = refl;
        others = drop-other heap i.world.heap i.state.state_data;
      };
      state = refl;
      decided = refl;
      object = drop_self heap i.world.heap i.state.state_data;
      answered =
          answer-Answered (record { role = role_server; kind = msg_bye; cookie = s.client_cookie })
            (record { role = omega arith; kind = omega arith; cookie = small.client }) i.world.mem
            (data_at pkt) five b;
    }

    -- The server's `runBye` returns and follows the rule of the protocol. A bye of a client that
    -- has the server's cookie is answered by a bye with the client's cookie, and the connection
    -- ends with its object deleted. On any other message, a wrong cookie included, nothing is
    -- answered: the object is deleted, the packet is to be freed and the state is the end state.
    -- No other object and no timeout changes, nor which packets the batch has and how they are
    -- marked, nor any length of a packet's data; of the memory, only bytes from the time to live
    -- in the packet's IP header up to the end of its message do. Conditions: the connection's
    -- object exists and its cookies fit a byte, the memory holds bytes, and the packet's IP
    -- header has at least five words.
    pub run_bye-Obeys :
        (j : Iface K F (World H)) × (run_bye heap data_at pkt i ≡ ok j)
        × Obeys heap data_at terminate pkt i (bye_rule s v) j
    unfolding run_bye object
    run_bye-Obeys = elim (Bool-cases (v.role == 0)) [
      | inr e ↦ (
        refuse heap terminate i,
        ground (arith, live, e),
        by_verdict silent (refuse heap terminate i) (bye_refused (inl e))
            (refuse-Silent heap data_at terminate pkt i),
      )
      | inl e ↦ elim (Bool-cases (v.kind == 1)) [
        | inr f ↦ (
          refuse heap terminate i,
          ground (arith, live, e, f),
          by_verdict silent (refuse heap terminate i) (bye_refused (inr (inl f)))
              (refuse-Silent heap data_at terminate pkt i),
        )
        | inl f ↦ elim (Bool-cases (v.cookie == s.server_cookie)) [
          | inr g ↦ (
            refuse heap terminate i,
            ground (arith, live, e, f, g),
            by_verdict silent (refuse heap terminate i) (bye_refused (inr (inr g)))
                (refuse-Silent heap data_at terminate pkt i),
          )
          | inl g ↦ (
            parted,
            ground (arith, live, e, f, g),
            by_verdict _ parted (bye_taken e f g) parted-Replied,
          )
        ]
      ]
    ]
