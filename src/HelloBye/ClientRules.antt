-- ===== src/HelloBye/ClientRules.antt =====
-- The client of HelloBye follows the protocol.
use moon_state.Prelude.{
  ℕ, ◌+◌, ◌<◌, ◌≤◌, ◌≡◌, inl, inr, arith, true, false, ◌&&◌, some, length, if◌then◌else◌,
  Bool-cases,
}
use moon_state.Prelude.Int.{ℤ, int_eq}
use moon_state.Fault.{ok}
use moon_state.BufArray.{Ptr}
use moon_state.Headers.Bytes.{Bytes}
use moon_state.Headers.Ipv4
use moon_state.Machine.Types.{Iface}
use moon_state.Machine.Iface.{free_pkt, transition}
use moon_state.Hello.Heap.{Heap, World, object}
use moon_state.Hello.Packet.{ip_at}
use moon_state.Hello.Turn.{IsBytes}
use moon_state.Hello.Effects.{put_world, put_mem}
use moon_state.Hello.Convert.{keep_object}
use moon_state.Hello.Leaves.{
  Leaves, transition-Leaves, freed-Leaves, written-Leaves, keep_object-Leaves,
}
use moon_state.HelloBye.Text.{is_text, line, cookie_at}
use moon_state.HelloBye.Objects.{
  Greeter, Object, client_object, as_client, of_word, to_word, server_cookie, set_server_cookie,
}
use moon_state.HelloBye.Server.{server_hello_text, client_bye_text, server_bye_text}
use moon_state.HelloBye.Client.{
  recv_bye, terminate, bye_answer, bye_fun, recv_bye_fun, run_bye, run_recv_bye,
}
use moon_state.HelloBye.Spoken.{SpokenInPlace, bye_answer-SpokenInPlace}
use moon_state.HelloBye.ServerRules.{text_start, heard}

-- The cookie that a byte stands for is read back from the four bytes of an address.
word_kept :
    (p : ℕ) (m : Bytes) (o : Greeter)
    → m p < 256
    → server_cookie (set_server_cookie (cookie_at p m) o) ≡ cookie_at p m
unfolding server_cookie set_server_cookie of_word to_word cookie_at
word_kept p m o h = ground arith

module _ {K F H : Type 0} (heap : Heap Object H) (data_at : Ptr → ℕ) (pkt : Ptr)
    (i : Iface K F (World H)) where
  -- The cookie of the server's hello.
  abbrev pub told : ℤ
  told = heard heap data_at pkt i (length server_hello_text)

  -- The object after it: the cookie stands where the server's address was.
  abbrev pub kept : Greeter → Object
  kept o = client_object (set_server_cookie told o)

  abbrev start : ℕ
  start = text_start heap data_at pkt i

  -- A hello of the server is answered by a bye with its cookie; any other packet goes back as it
  -- came and ends the connection.
  unfoldable pub AnswersHello : Greeter → Iface K F (World H) → Type 0
  AnswersHello o j =
      if is_text start server_hello_text i.world.mem
      then Leaves i (SpokenInPlace (line client_bye_text told) i.world.mem (data_at pkt)) i.send_pkt
          recv_bye (heap.save i.state.state_data (kept o) i.world.heap) j
      else Leaves i (λ n. n ≡ i.world.mem) i.send_pkt terminate
          (heap.save i.state.state_data (client_object o) i.world.heap) j

  -- A bye of the server with the client's cookie is freed; any other packet goes back as it came.
  unfoldable pub HearsBye : Greeter → Iface K F (World H) → Type 0
  HearsBye o j =
      if is_text start server_bye_text i.world.mem
        && int_eq (heard heap data_at pkt i (length server_bye_text)) o.client_cookie
      then Leaves i (λ n. n ≡ i.world.mem) false terminate i.world.heap j
      else Leaves i (λ n. n ≡ i.world.mem) i.send_pkt terminate i.world.heap j

  module _ (o : Greeter)
      (live : heap.load i.state.state_data i.world.heap ≡ some (client_object o)) where
    abbrev written : Iface K F (World H)
    written =
        transition recv_bye
          (put_world (put_mem (bye_answer told (data_at pkt) i.world.mem) i.world) i)

    answers :
        server_cookie (set_server_cookie told o) ≡ told
        → is_text start server_hello_text i.world.mem ≡ true
        → run_bye heap data_at pkt i ≡ ok (keep_object heap (kept o) written)
    unfolding run_bye bye_fun object as_client
    answers k e = ground (arith, live, e, k)

    leaves :
        is_text start server_hello_text i.world.mem ≡ false
        → run_bye heap data_at pkt i
          ≡ ok (keep_object heap (client_object o) (transition terminate i))
    unfolding run_bye bye_fun object as_client
    leaves e = ground (arith, live, e)

    -- The client's second function returns. On a packet that starts with the text of a server's
    -- hello it writes, on the way back, the text of a client's bye with the cookie that the
    -- server sent, and waits for the server's bye; the cookie has then taken the place of the
    -- server's address in the connection's object. On any other packet no byte of memory changes,
    -- it stays marked as it was, and the connection ends. Either way the object stays behind the
    -- same pointer. No other object and no timeout changes, nor which packets the batch has and
    -- how they are marked, nor any length of a packet's data; of the memory, only bytes from the
    -- time to live in the packet's IP header up to the end of the new text, or of the first
    -- twenty bytes behind the UDP header if the text is shorter, do. Conditions: the connection's
    -- object is the client's, the memory holds bytes, and the packet's IP header has at least
    -- five words.
    pub run_bye-AnswersHello :
        IsBytes i.world.mem
        → 5 ≤ Ipv4.ihl i.world.mem (ip_at (data_at pkt))
        → (j : Iface K F (World H)) × (run_bye heap data_at pkt i ≡ ok j) × AnswersHello o j
    unfolding AnswersHello
    run_bye-AnswersHello b five = elim (Bool-cases (is_text start server_hello_text i.world.mem)) [
      | inl e ↦
          let answered =
            written-Leaves i recv_bye
              (SpokenInPlace (line client_bye_text told) i.world.mem (data_at pkt))
              (bye_answer told (data_at pkt) i.world.mem)
              (bye_answer-SpokenInPlace i.world.mem (data_at pkt) five b told) in
          (
            keep_object heap (kept o) written,
            answers (word_kept (start + length server_hello_text) i.world.mem o (b _)) e,
            rw e (keep_object-Leaves heap (kept o) answered answered.heap),
          )
      | inr e ↦
          let ended = transition-Leaves i terminate in
          (
            keep_object heap (client_object o) (transition terminate i),
            leaves e,
            rw e (keep_object-Leaves heap (client_object o) ended ended.heap),
          )
    ]

    right :
        (is_text start server_bye_text i.world.mem
            && int_eq (heard heap data_at pkt i (length server_bye_text)) o.client_cookie)
          ≡ true
        → run_recv_bye heap data_at pkt i ≡ ok (transition terminate (free_pkt i))
    unfolding run_recv_bye recv_bye_fun object as_client
    right e = ground (arith, live, e)

    wrong :
        (is_text start server_bye_text i.world.mem
            && int_eq (heard heap data_at pkt i (length server_bye_text)) o.client_cookie)
          ≡ false
        → run_recv_bye heap data_at pkt i ≡ ok (transition terminate i)
    unfolding run_recv_bye recv_bye_fun object as_client
    wrong e = ground (arith, live, e)

    pub run_recv_bye-HearsBye :
        (j : Iface K F (World H)) × (run_recv_bye heap data_at pkt i ≡ ok j) × HearsBye o j
    unfolding HearsBye
    run_recv_bye-HearsBye =
        elim (Bool-cases (
          is_text start server_bye_text i.world.mem
          && int_eq (heard heap data_at pkt i (length server_bye_text)) o.client_cookie)) [
            | inl e ↦ (transition terminate (free_pkt i), right e, rw e (freed-Leaves i terminate))
            | inr e ↦ (transition terminate i, wrong e, rw e (transition-Leaves i terminate))
          ]
