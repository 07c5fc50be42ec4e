-- ===== src/HelloBye3/Server.antt =====
-- `HelloBye3::Server`: the state functions of the server.
use moon_state.Prelude.{ℕ, not, ◌||◌, ◌==◌, if◌then◌else◌}
use moon_state.Fault.{Result, ok, ◌>>=◌}
use moon_state.BufArray.{Ptr}
use moon_state.Machine.Types.{Iface}
use moon_state.Machine.Iface.{transition}
use moon_state.Hello.Heap.{Heap, World, random_below, object, allocate}
use moon_state.Hello.Packet.{msg_at, message, answer, role_client, role_server, msg_hello, msg_bye}
use moon_state.Hello.Effects.{put_world, put_mem, put_heap, drop_object, refuse}

-- `struct server`
pub record Cookies : Type 0 where
  pub client_cookie : ℕ
  pub server_cookie : ℕ

-- `struct States`
abbrev pub hello : ℕ
hello = 0

abbrev pub bye : ℕ
bye = 1

abbrev pub terminate : ℕ
terminate = 2

module _ {H : Type 0} (heap : Heap Cookies H) (data_at : Ptr → ℕ) where
  -- `factory`
  unfoldable pub factory : World H → Result (Ptr × World H)
  factory w =
      let (c, w') = random_below 256 w in
      allocate heap (record { client_cookie = 0; server_cookie = c }) w'

  module _ {K F : Type 0} where
    -- `runHello`
    unfoldable pub run_hello : Ptr → Iface K F (World H) → Result (Iface K F (World H))
    unfolding answer
    run_hello pkt i = do
      s ← object heap i.state.state_data i.world.heap
      let m = i.world.mem
      let d = data_at pkt
      let v = message m (msg_at m d)
      if not (v.role == 0)
          then ok (refuse heap terminate i)
          else if not (v.kind == 0)
          then ok (refuse heap terminate i)
          else (let s' = record s { client_cookie = v.cookie } in
              let m' =
                answer (record { role = role_server; kind = msg_hello; cookie = s'.server_cookie })
                  d m in
              let w =
                put_mem m' (put_heap (heap.save i.state.state_data s' i.world.heap) i.world) in
              ok (transition bye (put_world w i)))

    -- `runBye`
    unfoldable pub run_bye : Ptr → Iface K F (World H) → Result (Iface K F (World H))
    unfolding answer
    run_bye pkt i = do
      s ← object heap i.state.state_data i.world.heap
      let m = i.world.mem
      let d = data_at pkt
      let v = message m (msg_at m d)
      if not (v.role == role_client) || not (v.kind == msg_bye)
          then ok (refuse heap terminate i)
          else if not (v.cookie == s.server_cookie)
          then ok (refuse heap terminate i)
          else (let m' =
                answer (record { role = role_server; kind = msg_bye; cookie = s.client_cookie }) d
                  m in
              ok (drop_object heap (transition terminate (put_world (put_mem m' i.world) i))))
