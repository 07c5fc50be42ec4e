-- ===== src/Machine/Packet.antt =====
-- `runPkt` and the packet loop of `runPktBatch`.
use moon_state.Prelude.{
  inl, inr, ℕ, ◌+◌, ◌^◌, ◌<◌, ◌≡◌, ◌≢◌, sym, ap, ◌∙◌, Bool, true, false, List, arith, ◌==◌, length,
  Bool-cases, if_true, if_false,
}
use moon_state.Fault.{ok, >>=-eq-ok, ok-injective, not-err-ok}
use moon_state.BufArray.{Ptr}
use moon_state.BufArray.Entries.{Entry, Holds}
use moon_state.Machine.Types.{State, Timers, Iface, Sys, Env}
use moon_state.Machine.Uses.{
  Extended, Extended-le, Holds-Extended, WellBehaved, Uses-Extended, Uses-conn_id,
}
use moon_state.Machine.Lookup.{Usable}
use moon_state.Machine.Step.{mark_pkt-Extended, destroy-Extended}
use moon_state.Machine.Finish.{Finished, counted-Finished, dropped-Finished, kept-Finished}
use moon_state.Machine.Timeouts.{with_timers}
use moon_state.Machine.Run.{
  lookup_fun, cancel_timeout, make_iface, mark_pkt, destroy, removes, finish, dispatch,
}

pub cancel_timeout-state :
    {K F : Type 0} (st : State) (t : Timers K F) → (cancel_timeout st t).0.state ≡ st.state
unfolding cancel_timeout
cancel_timeout-state st t = ground arith

module _ {K F W TM PM : Type 0} (env : Env K F W TM PM) (g : ℕ) (wb : WellBehaved env g) where
  -- A connection that the destructor does not remove is not in the end state.
  still_alive :
      (i j : Iface K F W) (s : Sys K F W TM PM)
      → (i.state.state == s.sm.end_state_id) ≡ false
      → removes env i j s.sm ≡ false
      → (i.immediate_transition ≡ false → j.state ≡ i.state)
      → j.state.state ≢ s.sm.end_state_id
  unfolding removes
  still_alive i j s e stays same = elim (Bool-cases i.immediate_transition) [
    | inl now ↦ ground arith
    | inr late ↦ ground (arith, same late)
  ]

  module _ (id : K) (u : Usable env id) (cur : ℕ) where
    finish-Finished :
        (counts : Bool) (i : Iface K F W) {es : List Entry} {n : ℕ} (s t : Sys K F W TM PM)
        → cur < length es
        → length es + n + g < 2 ^ 31
        → Extended es n i.bufs
        → i.conn_id ≡ id
        → finish env counts cur i s ≡ ok t
        → Finished env id cur i es (n + g) s t
    unfolding finish
    finish-Finished counts i {es} {n} s t lt room x c h =
        elim (Bool-cases (i.state.state == s.sm.end_state_id)) [
          | inl e ↦
              let (j, m, r) = >>=-eq-ok (mark_pkt env cur i) _ (sym (if_true _ _ _ e) ∙ h) in
              let (y, q) = mark_pkt-Extended env cur i j lt x m in
              elim (Bool-cases j.immediate_transition) [
                | inl now ↦ absurd (not-err-ok (sym (if_true _ _ _ now) ∙ r))
                | inr late ↦ rw (← ok-injective (sym (if_false _ _ _ late) ∙ r)) (
                    counted-Finished env g wb id u cur counts i s _ (
                      dropped-Finished env g wb id u cur i j s
                        (ap (λ (l : Iface K F W). l.conn_id) q ∙ c) (Extended-le y (omega arith))))
              ]
          | inr e ↦
              let (j, m, r) =
                >>=-eq-ok (destroy env cur s.sm.functions i) _ (sym (if_false _ _ _ e) ∙ h) in
              let (y, c', st) = destroy-Extended env g wb cur s.sm.functions i j lt room x m in
              elim (Bool-cases (removes env i j s.sm)) [
                | inl ends ↦
                    rw (← ok-injective r, if_true _ _ _ ends)
                      (dropped-Finished env g wb id u cur i j s (c' ∙ c) y)
                | inr stays ↦
                    rw (← ok-injective r, if_false _ _ _ stays)
                      (kept-Finished env g wb id u cur i j s (c' ∙ c) y
                        (still_alive i j s e stays st))
              ]
        ]

    -- What the timers are does not matter to `Finished`.
    retimed :
        (i : Iface K F W) {es : List Entry} {n : ℕ} (s t : Sys K F W TM PM) (q : Timers K F)
        → Finished env id cur i es n (with_timers q s) t
        → Finished env id cur i es n s t
    unfolding with_timers
    retimed i s t q f = record {
      batch = f.batch;
      only = record {
        functions = f.only.functions;
        end_state_id = f.only.end_state_id;
        listens = f.only.listens;
        others = f.only.others;
      };
      alive = f.alive;
    }

    -- The state function of the connection's state ran on the packet, and with it ended as told.
    abbrev pub Ran : Ptr → State → List Entry → Sys K F W TM PM → Sys K F W TM PM → Type 0
    Ran pkt st es s t =
        (f : F) × (i : Iface K F W) × (lookup_fun st.state s.sm.functions ≡ ok f)
        × (let (st', q) = cancel_timeout st s.sm.timers in
            env.run_fun f pkt (make_iface env id st' (with_timers q s)) ≡ ok i)
        × Finished env id cur i es (g + g) s t

    -- A packet of a connection that was found.
    pub dispatch-Ran :
        (pkt : Ptr) (st : State) {es : List Entry} (s t : Sys K F W TM PM)
        → cur < length es
        → length es + (g + g) < 2 ^ 31
        → Holds s.bufs es
        → dispatch env cur pkt id st s ≡ ok t
        → Ran pkt st es s t
    unfolding dispatch with_timers make_iface
    dispatch-Ran pkt st {es} s t lt room b h =
        let q : Timers K F = (cancel_timeout st s.sm.timers).1 in
        let (f, l, h') =
          >>=-eq-ok (lookup_fun (cancel_timeout st s.sm.timers).0.state s.sm.functions) _ h in
        let (i, r, h'') =
          >>=-eq-ok
            (env.run_fun f pkt
              (make_iface env id (cancel_timeout st s.sm.timers).0 (with_timers q s)))
            _ h' in
        let (n, few, uses) = wb.fun_uses f pkt _ i r in
        let x : Extended es g i.bufs =
          Extended-le (Uses-Extended uses (Holds-Extended b) (omega arith)) (omega arith) in
        (
          f,
          i,
          ap (λ n. lookup_fun n s.sm.functions) (sym (cancel_timeout-state st s.sm.timers)) ∙ l,
          r,
          retimed i s t q (
              finish-Finished true i (with_timers q s) t lt (omega arith) x (Uses-conn_id uses)
                h''),
        )
