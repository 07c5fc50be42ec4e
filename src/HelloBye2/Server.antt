-- ===== src/HelloBye2/Server.antt =====
-- `HelloBye2::Server`: the classes `Hello` and `Bye`.
use moon_state.Prelude.{ℕ, not, ◌||◌, ◌==◌, if◌then◌else◌}
use moon_state.Fault.{Result, ok, ◌>>=◌}
use moon_state.BufArray.{Ptr}
use moon_state.Machine.Types.{Iface}
use moon_state.Machine.Iface.{free_pkt, transition}
use moon_state.Hello.Heap.{Heap, World, random_below, object, allocate}
use moon_state.Hello.Packet.{msg_at, message, answer, role_client, role_server, msg_hello, msg_bye}
use moon_state.Hello.Effects.{put_world, put_mem, drop_object}
use moon_state.Hello.Convert.{keep_object, convert}
use moon_state.HelloBye2.Objects.{
  Pair, Object, server_hello, server_bye, as_server_hello, as_server_bye,
}

-- `Server::States`
abbrev pub hello : ℕ
hello = 0

abbrev pub bye : ℕ
bye = 1

abbrev pub terminate : ℕ
terminate = 2

module _ {K F H : Type 0} (data_at : Ptr → ℕ) where
  -- `Hello::fun`, with the object after it.
  unfoldable pub hello_fun : Ptr → Pair → Iface K F (World H) → Pair × Iface K F (World H)
  hello_fun pkt o i =
      let m = i.world.mem in
      let d = data_at pkt in
      let v = message m (msg_at m d) in
      if not (v.role == 0)
      then (o, free_pkt (transition terminate i))
      else if not (v.kind == 0)
      then (o, free_pkt (transition terminate i))
      else (let o' = record o { client_cookie = v.cookie } in
          let m' =
            answer (record { role = role_server; kind = msg_hello; cookie = o'.server_cookie }) d
              m in
          (o', transition bye (put_world (put_mem m' i.world) i)))

  -- `Bye::fun`, which leaves its object alone.
  unfoldable pub bye_fun : Ptr → Pair → Iface K F (World H) → Iface K F (World H)
  bye_fun pkt o i =
      let m = i.world.mem in
      let d = data_at pkt in
      let v = message m (msg_at m d) in
      if not (v.role == role_client) || not (v.kind == msg_bye)
      then free_pkt (transition terminate i)
      else if not (v.cookie == o.server_cookie)
      then free_pkt (transition terminate i)
      else (let m' =
            answer (record { role = role_server; kind = msg_bye; cookie = o.client_cookie }) d m in
          transition terminate (put_world (put_mem m' i.world) i))

module _ {H : Type 0} (heap : Heap Object H) (data_at : Ptr → ℕ) where
  -- `Hello::factory` and `Hello::Hello`. The constructor leaves the client's cookie as it is in
  -- the memory, which is `unset`.
  unfoldable pub factory : ℕ → World H → Result (Ptr × World H)
  factory unset w =
      let (c, w') = random_below 256 w in
      allocate heap (server_hello (record { client_cookie = unset; server_cookie = c })) w'

  module _ {K F : Type 0} where
    -- `Hello::run`
    unfoldable pub run_hello : Ptr → Iface K F (World H) → Result (Iface K F (World H))
    unfolding hello_fun
    run_hello pkt i = do
      t ← object heap i.state.state_data i.world.heap
      o ← as_server_hello t
      let (o', j) = hello_fun data_at pkt o i
      let k = keep_object heap (server_hello o') j
      if k.state.state == bye
          then convert heap (server_bye o') k
          else if k.state.state == terminate
          then ok (drop_object heap k)
          else ok k

    -- `Bye::run`
    unfoldable pub run_bye : Ptr → Iface K F (World H) → Result (Iface K F (World H))
    unfolding bye_fun
    run_bye pkt i = do
      t ← object heap i.state.state_data i.world.heap
      o ← as_server_bye t
      let j = bye_fun data_at pkt o i
      if j.state.state == terminate then ok (drop_object heap j) else ok j
