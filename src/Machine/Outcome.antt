-- ===== src/Machine/Outcome.antt =====
-- `runPkt` as a whole, and the packet loop of `runPktBatch`.
use moon_state.Prelude.{
  inl, inr, ℕ, ◌+◌, ◌^◌, ◌<◌, ◌≡◌, refl, false, Option, none, some, List, arith, length,
  Option-cases,
}
use moon_state.Fault.{Result, ok, >>=-eq-ok}
use moon_state.BufArray.{Ptr}
use moon_state.BufArray.Entries.{Entry, Holds, decide_at, mark_drop-Holds}
use moon_state.Machine.Types.{State, Sys, Env}
use moon_state.Machine.Uses.{WellBehaved}
use moon_state.Machine.Find.{find_state}
use moon_state.Machine.Lookup.{Usable}
use moon_state.Machine.Moves.{Finds, hit, adopted, accepted, rejected, Untouched, find_state_lem}
use moon_state.Machine.Deadline.{find_state-bufs}
use moon_state.Machine.Packet.{Ran, dispatch-Ran}
use moon_state.Machine.Run.{packet_at, drop_pkt, dispatch, run_pkt}

module _ {K F W TM PM : Type 0} (env : Env K F W TM PM) where
  -- The packet is to be freed; nothing else has changed.
  pub record Dropped (cur : ℕ) (es : List Entry) (s t : Sys K F W TM PM) : Type 0 where
    pub batch : Holds t.bufs (decide_at es cur false)
    pub sm : t.sm ≡ s.sm
    pub pool : t.pool ≡ s.pool
    pub world : t.world ≡ s.world

  drop_pkt-Dropped :
      (cur : ℕ) {es : List Entry} (s t : Sys K F W TM PM)
      → cur < length es
      → Holds s.bufs es
      → drop_pkt env cur s ≡ ok t
      → Dropped cur es s t
  unfolding drop_pkt
  drop_pkt-Dropped cur s t lt b h =
      let (b', e, held) = mark_drop-Holds cur b lt in
      let q : t ≡ record s { bufs = b' } = ground (arith, e) in
      rw q (record { batch = held; sm = refl; pool = refl; world = refl })

  -- A search that finds nothing changes nothing.
  Finds-none : (id : K) (s u : Sys K F W TM PM) → Finds env id s none u → u ≡ s
  Finds-none id s u (hit st e q z) = absurd (cc)
  Finds-none id s u (adopted st e p q z) = absurd (cc)
  Finds-none id s u (accepted d w e p l a q z) = absurd (cc)
  Finds-none id s u (rejected e p l q z) = z

  module _ (g : ℕ) (wb : WellBehaved env g) where
    -- The three ways in which `runPkt` can end without a fault.
    pub data Outcome (cur : ℕ) (es : List Entry) (s t : Sys K F W TM PM) : Type 0 where
      unidentified :
          (p : Ptr)
          → packet_at cur s.bufs ≡ ok p
          → env.identify p s.world ≡ none
          → Dropped cur es s t
          → Outcome cur es s t
      unwanted :
          (p : Ptr) (id : K)
          → packet_at cur s.bufs ≡ ok p
          → env.identify p s.world ≡ some id
          → Finds env id s none s
          → Dropped cur es s t
          → Outcome cur es s t
      handled :
          (p : Ptr) (id : K) (st : State) (u : Sys K F W TM PM) (v : Usable env id)
          → packet_at cur s.bufs ≡ ok p
          → env.identify p s.world ≡ some id
          → Finds env id s (some st) u
          → Untouched env id s u
          → Ran env g wb id v cur p st es u t
          → Outcome cur es s t

    module _ (known : (p : Ptr) (w : W) (id : K) → env.identify p w ≡ some id → Usable env id) where
      settle :
          (cur : ℕ) {es : List Entry} (p : Ptr) (id : K) (s t u : Sys K F W TM PM)
          (r : Option State)
          → cur < length es
          → length es + (g + g) < 2 ^ 31
          → Holds s.bufs es
          → packet_at cur s.bufs ≡ ok p
          → env.identify p s.world ≡ some id
          → find_state env 2 id s ≡ ok (r, u)
          → elim r as (λ _. Result (Sys K F W TM PM)) [
            | none ↦ drop_pkt env cur u
            | some st ↦ dispatch env cur p id st u
          ]
            ≡ ok t
          → Outcome cur es s t
      settle cur p id s t u none lt room b at_cur e f h =
          let v : Usable env id = known p s.world id e in
          let found = (find_state_lem env id s u none v f).0 in
          let same = Finds-none id s u found in
          unwanted p id at_cur e (rw same at found) (drop_pkt-Dropped cur s t lt b (rw same at h))
      settle cur p id s t u (some st) lt room b at_cur e f h =
          let v : Usable env id = known p s.world id e in
          let b' : Holds u.bufs _ = rw (find_state-bufs env 2 id s (some st) u f) b in
          let l = find_state_lem env id s u (some st) v f in
          handled p id st u v at_cur e l.0 l.3
            (dispatch-Ran env g wb id v cur p st u t lt room b' h)

      -- When `runPkt` returns, one of three things has happened: the packet was not identified,
      -- and is to be freed, while the machine, the pool, the user's memory and the rest of the
      -- batch are as before; its connection is neither in the table nor in the pool and the
      -- machine does not listen, and it is to be freed with as little changed; or its connection
      -- was found, the function of the connection's state ran on the packet, the packet has the
      -- decision that the function made, at most `2 * g` packets were added to the batch, no
      -- other connection changed, and the connection is gone or not in the end state. Conditions:
      -- the functions work through the interface by at most `g` calls each, the identifier
      -- returns no reserved key, the index is one of the batch, and the batch is small enough not
      -- to overflow.
      pub run_pkt-Outcome :
          (cur : ℕ) {es : List Entry} (s t : Sys K F W TM PM)
          → cur < length es
          → length es + (g + g) < 2 ^ 31
          → Holds s.bufs es
          → run_pkt env cur s ≡ ok t
          → Outcome cur es s t
      unfolding run_pkt
      run_pkt-Outcome cur s t lt room b h =
          let (p, at_cur, h') = >>=-eq-ok (packet_at cur s.bufs) _ h in
          elim (Option-cases (env.identify p s.world)) [
            | inl e ↦ unidentified p at_cur e (drop_pkt-Dropped cur s t lt b (rw e at h'))
            | inr (id, e) ↦
                let ((r, u), f, k) = >>=-eq-ok (find_state env 2 id s) _ (rw e at h') in
                settle cur p id s t u r lt room b at_cur e f k
          ]
