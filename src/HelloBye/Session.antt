-- ===== src/HelloBye/Session.antt =====
-- A client and a server of HelloBye that speak with each other.
use moon_state.Prelude.{ℕ, ◌<◌, ◌≤◌, ◌≡◌, ◌∙◌, sym, true, false, some, List}
use moon_state.Prelude.Int.{pos, int_eq, int_eq_iff}
use mathlib.Core.Path.{subst}
use moon_state.Fault.{Result, ok, ok-injective}
use moon_state.BufArray.{Ptr}
use moon_state.Headers.Ipv4
use moon_state.Machine.Types.{Iface}
use moon_state.Hello.Heap.{Heap, World, save_self}
use moon_state.Hello.Packet.{ip_at}
use moon_state.Hello.Turn.{IsBytes}
use moon_state.Hello.Moves.{Roomy, Handed}
use moon_state.Hello.Leaves.{Leaves}
use moon_state.HelloBye.Text.{is_text, line, line-cookie_at}
use moon_state.HelloBye.Objects.{
  Pair, Greeter, Object, server_hello, server_bye, client_object, set_server_cookie,
}
use moon_state.HelloBye.Server.{
  client_hello_text, server_hello_text, client_bye_text, server_bye_text,
}
use moon_state.HelloBye.Server
use moon_state.HelloBye.Client
use moon_state.HelloBye.Spoken.{SpokenInPlace}
use moon_state.HelloBye.ServerRules.{
  text_start, FollowsHello, FollowsBye, run_hello-FollowsHello, run_bye-FollowsBye,
}
use moon_state.HelloBye.ClientRules.{
  AnswersHello, HearsBye, run_bye-AnswersHello, run_recv_bye-HearsBye,
}

-- What a run that returned has left, from what it would leave.
returned :
    {S : Type 0} {r : Result S} (P : S → Type 0) {s : S}
    → (t : S) × (r ≡ ok t) × P t
    → r ≡ ok s
    → P s
returned P (t, e, x) e' = subst P (ok-injective (sym e ∙ e')) x

module _ {K F H : Type 0} (heap : Heap Object H) (data_at : Ptr → ℕ) (pkt : Ptr)
    (i : Iface K F (World H)) where
  -- The packet starts with the text `s`.
  abbrev pub Says : List ℕ → Type 0
  Says s = is_text (text_start heap data_at pkt i) s i.world.mem ≡ true

  -- A packet arrives at a connection with the object `o`.
  pub record Reaches (o : Object) : Type 0 where
    pub live : heap.load i.state.state_data i.world.heap ≡ some o
    pub is_bytes : IsBytes i.world.mem
    pub five : 5 ≤ Ipv4.ihl i.world.mem (ip_at (data_at pkt))

  -- A step of the server: a client's hello with a cookie of one digit.
  module _ (o : Pair) (at : Reaches (server_hello o)) (c : ℕ) (digit : c < 10)
      (says : Says (line client_hello_text (pos c))) (room : Roomy heap) {j : Iface K F (World H)}
      (ran : Server.run_hello heap data_at pkt i ≡ ok j) where
    pub greets :
        Handed heap i
          (SpokenInPlace (line server_hello_text o.server_cookie) i.world.mem (data_at pkt))
          (server_bye (record o { client_cookie = pos c }))
          Server.bye
          j
    unfolding FollowsHello
    greets =
        let (t, k) =
          line-cookie_at (text_start heap data_at pkt i) client_hello_text c i.world.mem digit
            says in
        let follows =
          returned (FollowsHello heap data_at pkt i o)
            (run_hello-FollowsHello heap data_at pkt i o at.live (unfold Roomy in room _ _)
              at.is_bytes at.five)
            ran in
        rw (t, k) at follows

  -- A client's bye with the server's cookie.
  module _ (o : Pair) (at : Reaches (server_bye o)) (s : ℕ) (digit : s < 10)
      (mine : o.server_cookie ≡ pos s) (says : Says (line client_bye_text (pos s)))
      {j : Iface K F (World H)} (ran : Server.run_bye heap data_at pkt i ≡ ok j) where
    pub parts :
        Leaves i
          (SpokenInPlace (line server_bye_text o.client_cookie) i.world.mem (data_at pkt))
          i.send_pkt
          Server.terminate
          i.world.heap
          j
    unfolding FollowsBye
    parts =
        let (t, k) =
          line-cookie_at (text_start heap data_at pkt i) client_bye_text s i.world.mem digit says in
        let same : int_eq (pos s) o.server_cookie ≡ true = (int_eq_iff _ _).1 (sym mine) in
        let follows =
          returned (FollowsBye heap data_at pkt i o)
            (run_bye-FollowsBye heap data_at pkt i o at.live at.is_bytes at.five) ran in
        rw (t, k, same) at follows

  -- A step of the client: the server's hello.
  module _ (o : Greeter) (at : Reaches (client_object o)) (s : ℕ) (digit : s < 10)
      (says : Says (line server_hello_text (pos s))) {j : Iface K F (World H)}
      (ran : Client.run_bye heap data_at pkt i ≡ ok j) where
    pub answers :
        Leaves i
          (SpokenInPlace (line client_bye_text (pos s)) i.world.mem (data_at pkt))
          i.send_pkt
          Client.recv_bye
          (heap.save i.state.state_data (client_object (set_server_cookie (pos s) o)) i.world.heap)
          j
    unfolding AnswersHello
    answers =
        let (t, k) =
          line-cookie_at (text_start heap data_at pkt i) server_hello_text s i.world.mem digit
            says in
        let follows =
          returned (AnswersHello heap data_at pkt i o)
            (run_bye-AnswersHello heap data_at pkt i o at.live at.is_bytes at.five) ran in
        rw (t, k) at follows

    pub keeps :
        heap.load j.state.state_data j.world.heap
        ≡ some (client_object (set_server_cookie (pos s) o))
    keeps =
        rw (answers.same_data, answers.heap)
          (save_self heap i.world.heap i.state.state_data _ _ at.live)

  -- The server's bye, with the client's cookie.
  module _ (o : Greeter) (at : Reaches (client_object o)) (c : ℕ) (digit : c < 10)
      (mine : o.client_cookie ≡ pos c) (says : Says (line server_bye_text (pos c))) where
    pub ends :
        (j : Iface K F (World H)) × (Client.run_recv_bye heap data_at pkt i ≡ ok j)
        × Leaves i (λ n. n ≡ i.world.mem) false Client.terminate i.world.heap j
    unfolding HearsBye
    ends =
        let (t, k) =
          line-cookie_at (text_start heap data_at pkt i) server_bye_text c i.world.mem digit says in
        let same : int_eq (pos c) o.client_cookie ≡ true = (int_eq_iff _ _).1 (sym mine) in
        let (j, r, hears) = run_recv_bye-HearsBye heap data_at pkt i o at.live in
        (j, r, rw (t, k, same) at hears)
