-- ===== src/Machine/Iface.antt =====
-- The operations of `FunIface`, the interface that state functions and timeout functions use.
use moon_state.Prelude.{
  ℕ, suc, ◌+◌, ◌%◌, ◌≡◌, ◌≢◌, refl, arith, true, false, Option, none, some, List, [], ◌∷◌, ◌==◌,
  if◌then◌else◌,
}
use moon_state.Fault.{Result, ok, err, assert_failed}
use moon_state.BufArray.{Ptr, u32_mod, add_pkt}
use moon_state.Machine.Types.{State, Timers, Iface}

-- A `std::unordered_map` with `uint32_t` keys. `emplace` keeps a value that is there.
module _ {V : Type 0} where
  pub find_id : ℕ → List (ℕ × V) → Option V
  find_id k [] = none
  find_id k ((j, v) ∷ m) = if j == k then some v else find_id k m

  pub erase_id : ℕ → List (ℕ × V) → List (ℕ × V)
  erase_id k [] = []
  erase_id k ((j, v) ∷ m) = if j == k then erase_id k m else (j, v) ∷ erase_id k m

  pub emplace_id : ℕ → V → List (ℕ × V) → List (ℕ × V)
  unfolding find_id
  emplace_id k v m = elim (find_id k m) [ none ↦ (k, v) ∷ m | some w ↦ m ]

  -- An entry that was erased is gone, and the others are as before.
  pub erase_id_self : (k : ℕ) (m : List (ℕ × V)) → find_id k (erase_id k m) ≡ none
  unfolding find_id erase_id
  erase_id_self k [] = refl
  erase_id_self k ((j, v) ∷ m) = ground (arith, erase_id_self k m)

  pub erase_id-other : (k n : ℕ) (m : List (ℕ × V)) → n ≢ k → find_id n (erase_id k m) ≡ find_id n m
  unfolding find_id erase_id
  erase_id-other k n [] ne = refl
  erase_id-other k n ((j, v) ∷ m) ne = ground (arith, erase_id-other k n m ne)

unfoldable pub set_state_id : ℕ → State → State
set_state_id n st = record st { state = n }

set_timeout_id : ℕ → State → State
set_timeout_id n st = record st { timeout_id = n }

module _ {K F : Type 0} where
  -- The part of `setTimeout` on the members of the state machine.
  add_timeout : ℕ → F → K → Timers K F → Timers K F
  unfolding emplace_id
  add_timeout timeout f id t = record t {
    cur_timeout_id = (t.cur_timeout_id + 1) % u32_mod;
    timeouts_q =
        record { time = t.clock t.reads + timeout; timeout_id = t.cur_timeout_id } ∷ t.timeouts_q;
    timeout_functions =
        emplace_id t.cur_timeout_id (record { id = id; fun = f }) t.timeout_functions;
    reads = t.reads + 1;
  }

module _ {K F W : Type 0} where
  unfoldable pub free_pkt : Iface K F W → Iface K F W
  free_pkt i = record i { send_pkt = false }

  -- `getPkt`, with the meaning of the registered callback.
  unfoldable pub get_pkt : (F → W → Ptr × W) → Iface K F W → Result (Ptr × Iface K F W)
  get_pkt alloc i = elim i.get_pkt_cb [
    | none ↦ err assert_failed
    | some f ↦
        let (p, w) = alloc f i.world in ok (p, record i { bufs = add_pkt p i.bufs; world = w })
  ]

  unfoldable pub transition : ℕ → Iface K F W → Iface K F W
  unfolding set_state_id
  transition n i = record i { state = set_state_id n i.state }

  unfoldable pub transition_now : ℕ → Iface K F W → Iface K F W
  unfolding set_state_id
  transition_now n i = record i { state = set_state_id n i.state; immediate_transition = true }

  unfoldable pub set_timeout : ℕ → F → Iface K F W → Iface K F W
  unfolding add_timeout set_timeout_id
  set_timeout timeout f i = record i {
    state = set_timeout_id i.timers.cur_timeout_id i.state;
    timers = add_timeout timeout f i.conn_id i.timers;
  }

  -- One thing that a state function can do: a call of the interface, or a change of its own data
  -- (the pointer in the state, the user's memory with the packets' bytes).
  pub data Call (alloc : F → W → Ptr × W) (i j : Iface K F W) : Type 0 where
    frees : j ≡ free_pkt i → Call alloc i j
    gets : (p : Ptr) → get_pkt alloc i ≡ ok (p, j) → Call alloc i j
    transitions : (n : ℕ) → j ≡ transition n i → Call alloc i j
    transitions_now : (n : ℕ) → j ≡ transition_now n i → Call alloc i j
    sets_timeout : (t : ℕ) (f : F) → j ≡ set_timeout t f i → Call alloc i j
    touches :
        (d : Ptr) (w : W)
        → j ≡ record i {
          state = record { state_data = d; state = i.state.state; timeout_id = i.state.timeout_id };
          world = w;
        }
        → Call alloc i j

  -- Any sequence of these; the index is its length.
  pub data Uses (alloc : F → W → Ptr × W) (i : Iface K F W) : ℕ → Iface K F W → Type 0 where
    here : Uses alloc i 0 i
    next : {n : ℕ} {j k : Iface K F W} → Uses alloc i n j → Call alloc j k → Uses alloc i (suc n) k
