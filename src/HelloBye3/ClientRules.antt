-- ===== src/HelloBye3/ClientRules.antt =====
-- The client follows the protocol.
use moon_state.Prelude.{
  ℕ, ◌+◌, ◌≤◌, ◌≡◌, refl, ◌⊎◌, inl, inr, true, false, some, arith, ◌==◌, if◌then◌else◌, Bool-cases,
}
use moon_state.Fault.{ok}
use moon_state.BufArray.{Ptr}
use moon_state.Headers.Ipv4
use moon_state.Machine.Types.{Iface}
use moon_state.Machine.Iface.{free_pkt, transition, set_state_id}
use moon_state.Hello.Heap.{Heap, World, object, save_self, save-other, drop_self, drop-other}
use moon_state.Hello.Packet.{
  ip_at, msg_at, Message, message, answer, role_client, role_server, msg_hello, msg_bye,
}
use moon_state.Hello.Turn.{IsBytes}
use moon_state.Hello.Answer.{answer-Answered}
use moon_state.Hello.Effects.{put_world, put_mem, put_heap, drop_object, refuse}
use moon_state.Hello.Rules.{
  Verdict, silent, reply, same_message, Silent, Replied, Obeys, refuse-Silent,
}
use moon_state.HelloBye3.Client.{Client, recv_bye, terminate, run_bye, run_recv_bye}

-- The client answers the server's hello by a bye with the server's cookie, which it remembers.
unfoldable pub bye_rule : Client → Message → Verdict Client
bye_rule c v =
    if same_message v (record { role = role_server; kind = msg_hello; cookie = v.cookie })
    then reply (record { role = role_client; kind = msg_bye; cookie = v.cookie })
        (some (record c { server_cookie = v.cookie })) recv_bye
    else silent

module _ {K F H : Type 0} (heap : Heap Client H) (data_at : Ptr → ℕ) where
  module _ (pkt : Ptr) (i : Iface K F (World H)) (c : Client)
      (live : heap.load i.state.state_data i.world.heap ≡ some c) where
    abbrev v : Message
    v = message i.world.mem (msg_at i.world.mem (data_at pkt))

    -- The outcome, by the verdict.
    by_verdict :
        {r : Verdict Client} (q : Verdict Client) (j : Iface K F (World H))
        → r ≡ q
        → Obeys heap data_at terminate pkt i q j
        → Obeys heap data_at terminate pkt i r j
    by_verdict q j e o = rw e o

    bye_refused : (v.role == 1) ≡ false ⊎ (v.kind == 0) ≡ false → bye_rule c v ≡ silent
    unfolding bye_rule
    bye_refused (inl e) = ground arith
    bye_refused (inr e) = ground arith

    bye_taken :
        (v.role == 1) ≡ true
        → (v.kind == 0) ≡ true
        → bye_rule c v
          ≡ reply
              (record { role = role_client; kind = msg_bye; cookie = v.cookie })
              (some (record c { server_cookie = v.cookie }))
              recv_bye
    unfolding bye_rule
    bye_taken e f = ground arith

    module _ (b : IsBytes i.world.mem) (five : 5 ≤ Ipv4.ihl i.world.mem (ip_at (data_at pkt))) where
      -- A client that has the server's cookie.
      abbrev parting : Iface K F (World H)
      parting = transition recv_bye (
          put_world
            (put_mem
              (answer (record { role = role_client; kind = msg_bye; cookie = v.cookie })
                (data_at pkt) i.world.mem)
              (put_heap
                (heap.save i.state.state_data (record c { server_cookie = v.cookie }) i.world.heap)
                i.world))
            i)

      parting-Replied :
          Replied heap data_at terminate pkt i
            (record { role = role_client; kind = msg_bye; cookie = v.cookie })
            (some (record c { server_cookie = v.cookie }))
            recv_bye
            parting
      unfolding put_world put_mem put_heap transition set_state_id message
      parting-Replied = record {
        keeps = record {
          conn_id = refl;
          bufs = refl;
          timers = refl;
          immediate_transition = refl;
          len = refl;
          others = λ q ne.
              save-other heap i.world.heap i.state.state_data
                (record c { server_cookie = v.cookie }) q ne;
        };
        state = refl;
        decided = refl;
        object =
            save_self heap i.world.heap i.state.state_data (record c { server_cookie = v.cookie }) c
              live;
        answered =
            answer-Answered (record { role = role_client; kind = msg_bye; cookie = v.cookie })
              (record {
                role = omega arith;
                kind = omega arith;
                cookie = b (msg_at i.world.mem (data_at pkt) + 10);
              })
              i.world.mem (data_at pkt) five b;
      }

      -- The client's `runBye` returns and follows the rule of the protocol. A hello of the server
      -- is answered, in the same packet and on the way back, by a bye of the client with the
      -- cookie that came; the object keeps that cookie and the connection waits for the server's
      -- bye. On any other message nothing is answered: the object is deleted, the packet is to be
      -- freed and the state is the end state. No other object and no timeout changes, nor which
      -- packets the batch has and how they are marked, nor any length of a packet's data; of the
      -- memory, only bytes from the time to live in the packet's IP header up to the end of its
      -- message do. Conditions: the connection's object exists, the memory holds bytes, and the
      -- packet's IP header has at least five words.
      pub client_bye-Obeys :
          (j : Iface K F (World H)) × (run_bye heap data_at pkt i ≡ ok j)
          × Obeys heap data_at terminate pkt i (bye_rule c v) j
      unfolding run_bye object
      client_bye-Obeys = elim (Bool-cases (v.role == 1)) [
        | inr e ↦ (
          refuse heap terminate i,
          ground (arith, live, e),
          by_verdict silent (refuse heap terminate i) (bye_refused (inl e))
              (refuse-Silent heap data_at terminate pkt i),
        )
        | inl e ↦ elim (Bool-cases (v.kind == 0)) [
          | inr f ↦ (
            refuse heap terminate i,
            ground (arith, live, e, f),
            by_verdict silent (refuse heap terminate i) (bye_refused (inr f))
                (refuse-Silent heap data_at terminate pkt i),
          )
          | inl f ↦ (
            parting,
            ground (arith, live, e, f),
            by_verdict _ parting (bye_taken e f) parting-Replied,
          )
        ]
      ]

    -- A client that got the right bye.
    abbrev done : Iface K F (World H)
    done = drop_object heap (transition terminate (free_pkt i))

    done-Silent : Silent heap data_at terminate pkt i done
    unfolding drop_object put_world put_heap free_pkt transition set_state_id
    done-Silent = record {
      keeps = record {
        conn_id = refl;
        bufs = refl;
        timers = refl;
        immediate_transition = refl;
        len = refl;
        others = λ q ne. drop-other heap i.world.heap i.state.state_data q ne;
      };
      state = refl;
      freed = refl;
      gone = drop_self heap i.world.heap i.state.state_data;
      mem = refl;
    }

    -- Whatever message reaches the client's `runRecvBye`, it returns and the connection ends
    -- without an answer: the object is deleted, the packet is to be freed, the state is the end
    -- state, and no other object, timeout, packet or byte of memory changes. Condition: the
    -- connection's object exists.
    pub run_recv_bye-Silent :
        (j : Iface K F (World H)) × (run_recv_bye heap data_at pkt i ≡ ok j)
        × Silent heap data_at terminate pkt i j
    unfolding run_recv_bye object
    run_recv_bye-Silent = elim (Bool-cases (v.role == 1)) [
      | inr e ↦ (
        refuse heap terminate i,
        ground (arith, live, e),
        refuse-Silent heap data_at terminate pkt i,
      )
      | inl e ↦ elim (Bool-cases (v.kind == 1)) [
        | inr f ↦ (
          refuse heap terminate i,
          ground (arith, live, e, f),
          refuse-Silent heap data_at terminate pkt i,
        )
        | inl f ↦ elim (Bool-cases (v.cookie == c.client_cookie)) [
          | inr g ↦ (
            refuse heap terminate i,
            ground (arith, live, e, f, g),
            refuse-Silent heap data_at terminate pkt i,
          )
          | inl g ↦ (done, ground (arith, live, e, f, g), done-Silent)
        ]
      ]
    ]
