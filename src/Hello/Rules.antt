-- ===== src/Hello/Rules.antt =====
-- The protocol as a rule on messages, and what it means that a state function follows a rule.
use moon_state.Prelude.{ℕ, ◌≡◌, ◌≢◌, Bool, false, Option, none, ◌==◌, if◌then◌else◌, refl}
use moon_state.BufArray.{Ptr}
use moon_state.Machine.Types.{Iface}
use moon_state.Hello.Heap.{Heap, World, drop_self, drop-other}
use moon_state.Hello.Packet.{Message}
use moon_state.Hello.Answer.{Answered}
use moon_state.Hello.Effects.{put_world, put_heap, drop_object, refuse}
use moon_state.Machine.Iface.{free_pkt, transition, set_state_id}

-- What a rule says of a message that came in: there is no answer and the connection ends, or
-- there is one, after which the connection has the given object (`none` if it ends) and state.
pub data Verdict (O : Type 0) : Type 0 where
  silent : Verdict O
  reply : Message → Option O → ℕ → Verdict O

-- The same message.
abbrev pub same_message : Message → Message → Bool
same_message a b =
    if a.role == b.role then if a.kind == b.kind then a.cookie == b.cookie else false else false

module _ {K F O H : Type 0} (heap : Heap O H) (data_at : Ptr → ℕ) (terminate : ℕ) (pkt : Ptr)
    (i : Iface K F (World H)) where
  -- What no state function changes, whatever the verdict.
  pub record Keeps (j : Iface K F (World H)) : Type 0 where
    pub conn_id : j.conn_id ≡ i.conn_id
    pub bufs : j.bufs ≡ i.bufs
    pub timers : j.timers ≡ i.timers
    pub immediate_transition : j.immediate_transition ≡ i.immediate_transition
    pub len : j.world.len ≡ i.world.len
    pub others :
        (q : Ptr) → q ≢ i.state.state_data → heap.load q j.world.heap ≡ heap.load q i.world.heap

  -- The connection ends without an answer: its object is deleted, its packet is to be freed.
  pub record Silent (j : Iface K F (World H)) : Type 0 where
    pub keeps : Keeps j
    pub state : j.state.state ≡ terminate
    pub freed : j.send_pkt ≡ false
    pub gone : heap.load i.state.state_data j.world.heap ≡ none
    pub mem : j.world.mem ≡ i.world.mem

  -- The packet is to be sent back with the message `v`.
  pub record Replied (v : Message) (left : Option O) (next : ℕ) (j : Iface K F (World H))
      : Type 0 where
    pub keeps : Keeps j
    pub state : j.state.state ≡ next
    pub decided : j.send_pkt ≡ i.send_pkt
    pub object : heap.load i.state.state_data j.world.heap ≡ left
    pub answered : Answered v i.world.mem (data_at pkt) j.world.mem

  abbrev pub Obeys : Verdict O → Iface K F (World H) → Type 0
  Obeys silent j = Silent j
  Obeys (reply v left next) j = Replied v left next j

  pub refuse-Silent : Silent (refuse heap terminate i)
  unfolding refuse drop_object put_world put_heap free_pkt transition set_state_id
  refuse-Silent = record {
    keeps = record {
      conn_id = refl;
      bufs = refl;
      timers = refl;
      immediate_transition = refl;
      len = refl;
      others = λ q ne. drop-other heap i.world.heap i.state.state_data q ne;
    };
    state = refl;
    freed = refl;
    gone = drop_self heap i.world.heap i.state.state_data;
    mem = refl;
  }
