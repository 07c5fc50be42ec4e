-- ===== src/HelloBye/Server.antt =====
-- `HelloByeServerHello` and `HelloByeServerBye`.
use moon_state.Prelude.{ℕ, ◌+◌, not, List, length, ◌==◌, if◌then◌else◌}
use moon_state.Prelude.Int.{ℤ, pos, int_eq}
use moon_state.Fault.{Result, ok, ◌>>=◌}
use moon_state.BufArray.{Ptr}
use moon_state.Headers.Bytes.{Bytes}
use moon_state.Machine.Types.{Iface}
use moon_state.Machine.Iface.{free_pkt, transition}
use moon_state.Hello.Heap.{Heap, World, random_below, object, allocate}
use moon_state.Hello.Packet.{ip_at, udp_at, msg_at, turn}
use moon_state.Hello.Effects.{put_world, put_mem, drop_object}
use moon_state.Hello.Convert.{keep_object, convert}
use moon_state.HelloBye.Text.{codes, is_text, write_text, line, cookie_at}
use moon_state.HelloBye.Objects.{
  Pair, Object, server_hello, server_bye, as_server_hello, as_server_bye,
}

-- `HelloByeServer`
abbrev pub hello : ℕ
hello = 0

abbrev pub bye : ℕ
bye = 1

abbrev pub terminate : ℕ
terminate = 2

-- The texts that a packet starts with.
unfoldable pub client_hello_text : List ℕ
client_hello_text = codes "CLIENT HELLO:"

unfoldable pub server_hello_text : List ℕ
server_hello_text = codes "SERVER HELLO:"

unfoldable pub client_bye_text : List ℕ
client_bye_text = codes "CLIENT BYE:"

unfoldable pub server_bye_text : List ℕ
server_bye_text = codes "SERVER BYE:"

-- The packet with a text, on its way back.
unfoldable pub text_answer : List ℕ → ℕ → Bytes → Bytes
text_answer s d m = turn (ip_at d) (udp_at m d) (write_text (msg_at m d) s m)

module _ {K F H : Type 0} (data_at : Ptr → ℕ) where
  -- `HelloByeServerHello::fun`, with the object after it.
  unfoldable pub hello_fun : Ptr → Pair → Iface K F (World H) → Pair × Iface K F (World H)
  hello_fun pkt o i =
      let m = i.world.mem in
      let d = data_at pkt in
      let p = msg_at m d in
      if not (is_text p client_hello_text m)
      then (o, free_pkt (transition terminate i))
      else (let o' = record o { client_cookie = cookie_at (p + length client_hello_text) m } in
          let m' = text_answer (line server_hello_text o'.server_cookie) d m in
          (o', transition bye (put_world (put_mem m' i.world) i)))

  -- `HelloByeServerBye::fun`, which leaves its object alone, and does not free a wrong packet.
  unfoldable pub bye_fun : Ptr → Pair → Iface K F (World H) → Iface K F (World H)
  bye_fun pkt o i =
      let m = i.world.mem in
      let d = data_at pkt in
      let p = msg_at m d in
      if not (is_text p client_bye_text m)
      then transition terminate i
      else (let recv_cookie = cookie_at (p + length client_bye_text) m in
          if not (int_eq recv_cookie o.server_cookie)
          then transition terminate i
          else (let m' = text_answer (line server_bye_text o.client_cookie) d m in
              transition terminate (put_world (put_mem m' i.world) i)))

module _ {H : Type 0} (heap : Heap Object H) (data_at : Ptr → ℕ) where
  -- `HelloByeServerHello::factory` and the constructor. It leaves the client's cookie as it is in
  -- the memory, which is `unset`.
  unfoldable pub factory : ℤ → World H → Result (Ptr × World H)
  factory unset w =
      let (c, w') = random_below 10 w in
      allocate heap (server_hello (record { client_cookie = unset; server_cookie = pos c })) w'

  module _ {K F : Type 0} where
    -- `HelloByeServerHello::run`
    unfoldable pub run_hello : Ptr → Iface K F (World H) → Result (Iface K F (World H))
    unfolding hello_fun
    run_hello pkt i = do
      t ← object heap i.state.state_data i.world.heap
      o ← as_server_hello t
      let (o', j) = hello_fun data_at pkt o i
      let k = keep_object heap (server_hello o') j
      if k.state.state == bye
          then convert heap (server_bye o') k
          else if k.state.state == terminate
          then ok (drop_object heap k)
          else ok k

    -- `HelloByeServerBye::run`, which never deletes the object.
    unfoldable pub run_bye : Ptr → Iface K F (World H) → Result (Iface K F (World H))
    unfolding bye_fun
    run_bye pkt i = do
      t ← object heap i.state.state_data i.world.heap
      o ← as_server_bye t
      ok (bye_fun data_at pkt o i)
