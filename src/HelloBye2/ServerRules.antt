-- ===== src/HelloBye2/ServerRules.antt =====
-- The server's `Hello::run` follows the protocol.
use moon_state.Prelude.{
  ℕ, ◌<◌, ◌≤◌, ◌≡◌, inl, inr, arith, Bool, true, false, some, ◌==◌, if◌then◌else◌, Bool-cases,
}
use moon_state.Fault.{ok}
use moon_state.BufArray.{Ptr}
use moon_state.Headers.Ipv4
use moon_state.Machine.Types.{Iface}
use moon_state.Machine.Iface.{free_pkt, transition, set_state_id}
use moon_state.Hello.Heap.{Heap, World, object}
use moon_state.Hello.Packet.{
  ip_at, msg_at, Message, message, answer, role_client, role_server, msg_hello,
}
use moon_state.Hello.Turn.{IsBytes}
use moon_state.Hello.Answer.{Answered, answer-Answered}
use moon_state.Hello.Effects.{put_world, put_mem, put_heap}
use moon_state.Hello.Rules.{Silent, same_message}
use moon_state.Hello.Convert.{keep_object, convert}
use moon_state.HelloBye2.Objects.{Pair, Object, server_hello, server_bye, as_server_hello}
use moon_state.HelloBye2.Server.{bye, terminate, hello_fun, run_hello}
use moon_state.Hello.Moves.{
  Room, Handed, converted, broken_off, broken_off-Silent, went_on, convert-went_on, went_on-Handed,
}

module _ {K F H : Type 0} (heap : Heap Object H) (data_at : Ptr → ℕ) (pkt : Ptr)
    (i : Iface K F (World H)) where
  -- A hello of a client is answered, and the connection gets an object of the class `Bye` with
  -- both cookies; anything else ends it.
  unfoldable pub Follows : Pair → Message → Iface K F (World H) → Type 0
  Follows o v j =
      if same_message v (record { role = role_client; kind = msg_hello; cookie = v.cookie })
      then Handed heap i
          (Answered (record { role = role_server; kind = msg_hello; cookie = o.server_cookie })
            i.world.mem (data_at pkt))
          (server_bye (record { client_cookie = v.cookie; server_cookie = o.server_cookie })) bye j
      else Silent heap data_at terminate pkt i j

  module _ (o : Pair)
      (live : heap.load i.state.state_data i.world.heap ≡ some (server_hello o)) where
    abbrev v : Message
    v = message i.world.mem (msg_at i.world.mem (data_at pkt))

    -- The end of a connection that broke the protocol.
    abbrev refused : Iface K F (World H)
    refused = broken_off heap data_at terminate pkt i (server_hello o)

    refused-Silent : Silent heap data_at terminate pkt i refused
    refused-Silent = broken_off-Silent heap data_at terminate pkt i (server_hello o)

    role_refused : (v.role == 0) ≡ false → run_hello heap data_at pkt i ≡ ok refused
    unfolding run_hello hello_fun object as_server_hello keep_object put_world put_heap transition
        set_state_id free_pkt
    role_refused e = ground (arith, live, e)

    kind_refused :
        (v.role == 0) ≡ true → (v.kind == 0) ≡ false → run_hello heap data_at pkt i ≡ ok refused
    unfolding run_hello hello_fun object as_server_hello keep_object put_world put_heap transition
        set_state_id free_pkt
    kind_refused e f = ground (arith, live, e, f)

    -- The fields of the object when a client's hello came, and the interface object before the
    -- conversion.
    abbrev both : Pair
    both = record { client_cookie = v.cookie; server_cookie = o.server_cookie }

    abbrev reply : Message
    reply = record { role = role_server; kind = msg_hello; cookie = o.server_cookie }

    abbrev greeted : Iface K F (World H)
    greeted = went_on heap i (answer reply (data_at pkt) i.world.mem) bye (server_hello both)

    greets :
        (p : Ptr) (h' : H)
        → (v.role == 0) ≡ true
        → (v.kind == 0) ≡ true
        → convert heap (server_bye both) greeted ≡ ok (converted heap p h' greeted)
        → run_hello heap data_at pkt i ≡ ok (converted heap p h' greeted)
    unfolding run_hello hello_fun object as_server_hello keep_object put_world put_heap put_mem
        transition set_state_id
    greets p h' e f c = ground (arith, live, e, f, c)

    greeted-Handed :
        (p : Ptr) (h' : H)
        → heap.create
            (server_bye both)
            (heap.save i.state.state_data (server_hello both) i.world.heap)
          ≡ some (p, h')
        → o.server_cookie < 256
        → IsBytes i.world.mem
        → 5 ≤ Ipv4.ihl i.world.mem (ip_at (data_at pkt))
        → Handed heap i
            (Answered reply i.world.mem (data_at pkt))
            (server_bye both)
            bye
            (converted heap p h' greeted)
    greeted-Handed p h' made small b five =
        went_on-Handed heap i (answer reply (data_at pkt) i.world.mem) bye (server_hello both)
          (server_hello o) (server_bye both) live p h' made
          (Answered reply i.world.mem (data_at pkt))
          (answer-Answered reply (record { role = omega arith; kind = omega arith; cookie = small })
            i.world.mem (data_at pkt) five b)

    by_follows :
        (c : Bool) (j : Iface K F (World H))
        → same_message v (record { role = role_client; kind = msg_hello; cookie = v.cookie }) ≡ c
        → (if c
            then Handed heap i (Answered reply i.world.mem (data_at pkt)) (server_bye both) bye j
            else Silent heap data_at terminate pkt i j)
        → Follows o v j
    unfolding Follows
    by_follows c j e x = rw e x

    said :
        (v.role == 0) ≡ true
        → (v.kind == 0) ≡ true
        → same_message v (record { role = role_client; kind = msg_hello; cookie = v.cookie }) ≡ true
    said e f = ground (arith, e, f)

    role_wrong :
        (v.role == 0) ≡ false
        → same_message v (record { role = role_client; kind = msg_hello; cookie = v.cookie })
          ≡ false
    role_wrong e = ground (arith, e)

    kind_wrong :
        (v.kind == 0) ≡ false
        → same_message v (record { role = role_client; kind = msg_hello; cookie = v.cookie })
          ≡ false
    kind_wrong f = ground (arith, f)

    -- The server's `Hello::run` returns and follows the rule of the protocol. On a hello of a
    -- client the packet becomes, on its way back, a hello of the server with the server's cookie;
    -- the connection's object is replaced by a new one of the class `Bye` with both cookies, at a
    -- pointer that was no object's before, and the old one is deleted. On any other message
    -- nothing is answered: the object is deleted, the packet is to be freed and the state is the
    -- end state. No other object and no timeout changes, nor which packets the batch has and how
    -- they are marked, nor any length of a packet's data; of the memory, only bytes from the time
    -- to live in the packet's IP header up to the end of its message do. Conditions: the
    -- connection's object is of the class `Hello`, its cookie fits a byte, there is memory for
    -- the new object at that point, the memory holds bytes, and the packet's IP header has at
    -- least five words.
    pub run_hello-Follows :
        Room heap (server_bye both) (heap.save i.state.state_data (server_hello both) i.world.heap)
        → o.server_cookie < 256
        → IsBytes i.world.mem
        → 5 ≤ Ipv4.ihl i.world.mem (ip_at (data_at pkt))
        → (j : Iface K F (World H)) × (run_hello heap data_at pkt i ≡ ok j) × Follows o v j
    run_hello-Follows room small b five = elim (Bool-cases (v.role == 0)) [
      | inr e ↦ (refused, role_refused e, by_follows false refused (role_wrong e) refused-Silent)
      | inl e ↦ elim (Bool-cases (v.kind == 0)) [
        | inr f ↦
            (refused, kind_refused e f, by_follows false refused (kind_wrong f) refused-Silent)
        | inl f ↦
            let (p, h', made) = room in
            let step =
              convert-went_on heap i (answer reply (data_at pkt) i.world.mem) bye
                (server_hello both) (server_bye both) p h' made in
            (
              converted heap p h' greeted,
              greets p h' e f step,
              by_follows true (converted heap p h' greeted) (said e f)
                  (greeted-Handed p h' made small b five),
            )
      ]
    ]
