-- ===== src/HelloBye/ServerRules.antt =====
-- The server of HelloBye follows the protocol.
use moon_state.Prelude.{
  ℕ, ◌+◌, ◌≤◌, ◌≡◌, inl, inr, arith, true, false, ◌&&◌, some, length, if◌then◌else◌, Bool-cases,
}
use moon_state.Prelude.Int.{ℤ, int_eq}
use moon_state.Fault.{ok}
use moon_state.BufArray.{Ptr}
use moon_state.Headers.Bytes.{Bytes}
use moon_state.Headers.Ipv4
use moon_state.Machine.Types.{Iface}
use moon_state.Machine.Iface.{free_pkt, transition, set_state_id}
use moon_state.Hello.Heap.{Heap, World, object}
use moon_state.Hello.Packet.{ip_at, msg_at}
use moon_state.Hello.Turn.{IsBytes}
use moon_state.Hello.Effects.{put_world, put_mem, put_heap}
use moon_state.Hello.Rules.{Silent}
use moon_state.Hello.Convert.{keep_object, convert}
use moon_state.Hello.Moves.{
  Room, Handed, converted, broken_off, broken_off-Silent, went_on, convert-went_on, went_on-Handed,
}
use moon_state.Hello.Leaves.{Leaves, transition-Leaves, written-Leaves}
use moon_state.HelloBye.Text.{is_text, line, cookie_at, AllBytes}
use moon_state.HelloBye.Objects.{
  Pair, Object, server_hello, server_bye, as_server_hello, as_server_bye,
}
use moon_state.HelloBye.Server.{
  bye, terminate, client_hello_text, server_hello_text, client_bye_text, server_bye_text,
  text_answer, hello_fun, bye_fun, run_hello, run_bye,
}
use moon_state.HelloBye.Spoken.{SpokenInPlace, text_answer-SpokenInPlace}

hello_text_AllBytes : AllBytes server_hello_text
unfolding server_hello_text
hello_text_AllBytes = omega arith

bye_text_AllBytes : AllBytes server_bye_text
unfolding server_bye_text
bye_text_AllBytes = omega arith

module _ {K F H : Type 0} (heap : Heap Object H) (data_at : Ptr → ℕ) (pkt : Ptr)
    (i : Iface K F (World H)) where
  -- Where the packet's text starts, and the cookie behind a text of the length `n`.
  abbrev pub text_start : ℕ
  text_start = msg_at i.world.mem (data_at pkt)

  abbrev pub heard : ℕ → ℤ
  heard n = cookie_at (text_start + n) i.world.mem

  -- The fields of the object after a client's hello.
  abbrev pub both : Pair → Pair
  both o = record o { client_cookie = heard (length client_hello_text) }

  -- A hello of a client is answered by the server's cookie, and the connection gets an object of
  -- the next class with both cookies; anything else ends it.
  unfoldable pub FollowsHello : Pair → Iface K F (World H) → Type 0
  FollowsHello o j =
      if is_text text_start client_hello_text i.world.mem
      then Handed heap i
          (SpokenInPlace (line server_hello_text o.server_cookie) i.world.mem (data_at pkt))
          (server_bye (both o)) bye j
      else Silent heap data_at terminate pkt i j

  -- A bye with the server's cookie is answered by the client's; any other packet goes back to
  -- where it came from as it came. Either way the connection ends and its object stays.
  unfoldable pub FollowsBye : Pair → Iface K F (World H) → Type 0
  FollowsBye o j =
      if is_text text_start client_bye_text i.world.mem
        && int_eq (heard (length client_bye_text)) o.server_cookie
      then Leaves i (SpokenInPlace (line server_bye_text o.client_cookie) i.world.mem (data_at pkt))
          i.send_pkt terminate i.world.heap j
      else Leaves i (λ n. n ≡ i.world.mem) i.send_pkt terminate i.world.heap j

  module _ (o : Pair)
      (live : heap.load i.state.state_data i.world.heap ≡ some (server_hello o)) where
    abbrev refused : Iface K F (World H)
    refused = broken_off heap data_at terminate pkt i (server_hello o)

    refuses :
        is_text text_start client_hello_text i.world.mem ≡ false
        → run_hello heap data_at pkt i ≡ ok refused
    unfolding run_hello hello_fun object as_server_hello keep_object put_world put_heap transition
        set_state_id free_pkt
    refuses e = ground (arith, live, e)

    abbrev greeted : Iface K F (World H)
    greeted =
        went_on heap i
          (text_answer (line server_hello_text o.server_cookie) (data_at pkt) i.world.mem) bye
          (server_hello (both o))

    greets :
        (p : Ptr) (h' : H)
        → is_text text_start client_hello_text i.world.mem ≡ true
        → convert heap (server_bye (both o)) greeted ≡ ok (converted heap p h' greeted)
        → run_hello heap data_at pkt i ≡ ok (converted heap p h' greeted)
    unfolding run_hello hello_fun object as_server_hello keep_object put_world put_heap put_mem
        transition set_state_id
    greets p h' e c = ground (arith, live, e, c)

    -- The server's first function returns and follows the rule of the protocol. A packet that
    -- starts with the text of a client's hello becomes, on its way back, one with the text of a
    -- server's hello and the server's cookie in decimal; the connection's object is replaced by a
    -- new one of the next class, at a pointer that was no object's before, with the server's
    -- cookie and the byte behind the text, less 48, for the client's, and the old one is deleted.
    -- Any other packet is to be freed, and the connection ends with its object deleted. No other
    -- object and no timeout changes, nor which packets the batch has and how they are marked, nor
    -- any length of a packet's data; of the memory, only bytes from the time to live in the
    -- packet's IP header up to the end of the new text, or of the first twenty bytes behind the
    -- UDP header if the text is shorter, do. Conditions: the connection's object is of the first
    -- class, there is memory for the new one at that point, the memory holds bytes, and the
    -- packet's IP header has at least five words.
    pub run_hello-FollowsHello :
        Room heap
          (server_bye (both o))
          (heap.save i.state.state_data (server_hello (both o)) i.world.heap)
        → IsBytes i.world.mem
        → 5 ≤ Ipv4.ihl i.world.mem (ip_at (data_at pkt))
        → (j : Iface K F (World H)) × (run_hello heap data_at pkt i ≡ ok j) × FollowsHello o j
    unfolding FollowsHello
    run_hello-FollowsHello room b five =
        elim (Bool-cases (is_text text_start client_hello_text i.world.mem)) [
          | inr e ↦ (
            refused,
            refuses e,
            rw e (broken_off-Silent heap data_at terminate pkt i (server_hello o)),
          )
          | inl e ↦
              let (p, h', made) = room in
              let answered : Bytes =
                text_answer (line server_hello_text o.server_cookie) (data_at pkt) i.world.mem in
              (
                converted heap p h' greeted,
                greets p h' e (
                    convert-went_on heap i answered bye (server_hello (both o))
                      (server_bye (both o)) p h' made),
                rw e (
                    went_on-Handed heap i answered bye (server_hello (both o)) (server_hello o)
                      (server_bye (both o)) live p h' made
                      (SpokenInPlace (line server_hello_text o.server_cookie) i.world.mem
                        (data_at pkt))
                      (text_answer-SpokenInPlace i.world.mem (data_at pkt) five b server_hello_text
                        o.server_cookie hello_text_AllBytes)),
              )
        ]

  module _ (o : Pair) (live : heap.load i.state.state_data i.world.heap ≡ some (server_bye o)) where
    abbrev answered : Iface K F (World H)
    answered = transition terminate (
        put_world
          (put_mem (text_answer (line server_bye_text o.client_cookie) (data_at pkt) i.world.mem)
            i.world)
          i)

    right :
        (is_text text_start client_bye_text i.world.mem
            && int_eq (heard (length client_bye_text)) o.server_cookie)
          ≡ true
        → run_bye heap data_at pkt i ≡ ok answered
    unfolding run_bye bye_fun object as_server_bye
    right e = ground (arith, live, e)

    wrong :
        (is_text text_start client_bye_text i.world.mem
            && int_eq (heard (length client_bye_text)) o.server_cookie)
          ≡ false
        → run_bye heap data_at pkt i ≡ ok (transition terminate i)
    unfolding run_bye bye_fun object as_server_bye
    wrong e = ground (arith, live, e)

    answered-Leaves :
        IsBytes i.world.mem
        → 5 ≤ Ipv4.ihl i.world.mem (ip_at (data_at pkt))
        → Leaves i
            (SpokenInPlace (line server_bye_text o.client_cookie) i.world.mem (data_at pkt))
            i.send_pkt
            terminate
            i.world.heap
            answered
    answered-Leaves b five =
        written-Leaves i terminate
          (SpokenInPlace (line server_bye_text o.client_cookie) i.world.mem (data_at pkt))
          (text_answer (line server_bye_text o.client_cookie) (data_at pkt) i.world.mem)
          (text_answer-SpokenInPlace i.world.mem (data_at pkt) five b server_bye_text
            o.client_cookie bye_text_AllBytes)

    -- The server's second function returns and ends the connection. A packet that starts with the
    -- text of a client's bye and the server's cookie becomes, on its way back, one with the text
    -- of a server's bye and the client's cookie in decimal. Any other packet is not freed: no
    -- byte of memory changes and it stays marked as it was. In both cases no object changes, so
    -- the connection's own is never deleted, and neither do the timeouts, the packets of the
    -- batch and their marks, and the lengths of their data; of the memory, only bytes from the
    -- time to live in the packet's IP header up to the end of the new text, or of the first
    -- twenty bytes behind the UDP header if the text is shorter, change. Conditions: the
    -- connection's object is of the second class, the memory holds bytes, and the packet's IP
    -- header has at least five words.
    pub run_bye-FollowsBye :
        IsBytes i.world.mem
        → 5 ≤ Ipv4.ihl i.world.mem (ip_at (data_at pkt))
        → (j : Iface K F (World H)) × (run_bye heap data_at pkt i ≡ ok j) × FollowsBye o j
    unfolding FollowsBye
    run_bye-FollowsBye b five =
        elim (Bool-cases (
          is_text text_start client_bye_text i.world.mem
          && int_eq (heard (length client_bye_text)) o.server_cookie)) [
            | inl e ↦ (answered, right e, rw e (answered-Leaves b five))
            | inr e ↦ (transition terminate i, wrong e, rw e (transition-Leaves i terminate))
          ]
