-- ===== src/Machine/Deadline.antt =====
-- The timeout loop of `runPktBatch`: which timeouts it looks at, and what becomes of one that is
-- due.
use moon_state.Prelude.{
  ℕ, zero, suc, ◌-◌, ◌≤◌, ◌<◌, ◌≡◌, ◌≢◌, sym, ap, ◌∙◌, ◌⊎◌, inl, inr, Bool, false, Option, none,
  some, arith, ltb, length, Option-cases, Bool-cases, lt→ltb, le→ltb, ltb→lt, ltb-false→le,
}
use moon_state.Fault.{Fault, Result, ok, err, ◌>>=◌, >>=-eq-ok, Result-cases, assert_failed}
use moon_state.BufArray.{u32_mod}
use moon_state.BufArray.Ops.{mark_beyond}
use moon_state.Machine.Types.{State, Timeout, TimeoutData, Timers, Iface, Sys, Env}
use moon_state.Machine.Iface.{find_id}
use moon_state.Machine.Uses.{WellBehaved, Uses-num_bufs}
use moon_state.Machine.Find.{find_state, accept, start_data}
use moon_state.Machine.Lookup.{
  adopt, find_state-hit, find_state-adopt, find_state-new, find_state-reject,
}
use moon_state.Machine.Run.{make_iface, mark_pkt, finish}
use moon_state.Machine.Queue.{Queued, top-Splits, top-none, top-Drawn}
use moon_state.Machine.Timeouts.{
  top, read_clock, pop_timeout, retire, with_timers, clear_timeout_id, fire, run_timeouts,
}

module _ {K F W TM PM : Type 0} (env : Env K F W TM PM) where
  open env use {table, pooled}

  accept-bufs : (id : K) (s t : Sys K F W TM PM) → accept env id s ≡ ok t → t.bufs ≡ s.bufs
  unfolding accept
  accept-bufs id s t h = elim (Result-cases (start_data env id s.sm.start_state_fun s.world)) [
    | inl ((d, w), e) ↦ ground arith
    | inr (f, e) ↦ absurd (ground arith)
  ]

  -- The search for a connection does not touch the batch, whatever the tables do.
  pub find_state-bufs :
      (n : ℕ) (id : K) (s : Sys K F W TM PM) (r : Option State) (t : Sys K F W TM PM)
      → find_state env n id s ≡ ok (r, t)
      → t.bufs ≡ s.bufs
  unfolding adopt
  find_state-bufs zero id s r t h = absurd (unfold find_state in cc)
  find_state-bufs (suc n) id s r t h = elim (Option-cases (table.find id s.sm.state_table)) [
    | inr (st, e) ↦ ground (arith, find_state-hit env n id s st e)
    | inl e ↦ elim (Option-cases (pooled.find id s.pool)) [
      | inr (st, p) ↦
          find_state-bufs n id (adopt env id st s) r t
            (sym (find_state-adopt env n id s st e p) ∙ h)
      | inl p ↦ elim (Bool-cases s.sm.listen_to_connections) [
        | inr l ↦ ground (arith, find_state-reject env n id s e p l)
        | inl l ↦
            let (u, q, k) =
              >>=-eq-ok (accept env id s) (find_state env n id)
                (sym (find_state-new env n id s e p l) ∙ h) in
            find_state-bufs n id u r t k ∙ accept-bufs id s u q
      ]
    ]
  ]

  -- The packet index that a timeout function's interface object has is no index of the batch.
  mark_pkt-beyond :
      (i : Iface K F W)
      → i.bufs.num_bufs < u32_mod
      → mark_pkt env (u32_mod - 1) i ≡ err assert_failed
  unfolding mark_pkt
  mark_pkt-beyond i h = ground (arith, mark_beyond (u32_mod - 1) i.bufs)

  finish-beyond :
      (counts : Bool) (i : Iface K F W) (s : Sys K F W TM PM)
      → i.bufs.num_bufs < u32_mod
      → finish env counts (u32_mod - 1) i s ≡ err assert_failed
  unfolding finish
  finish-beyond counts i s h = ground (arith, mark_pkt-beyond i h)

  -- The handling of a timeout that is due and valid never returns: its interface object is made
  -- for the packet number `2 ^ 32 - 1`, which no batch has. Conditions: the functions work
  -- through the interface, and the batch is smaller than `2 ^ 32`.
  pub fire_faults :
      (g n : ℕ) (td : TimeoutData K F) (s t : Sys K F W TM PM)
      → WellBehaved env g
      → s.bufs.num_bufs < u32_mod
      → fire env n td s ≢ ok t
  unfolding fire
  fire_faults g n td s t wb small h =
      let ((r, u), q, k) = >>=-eq-ok (find_state env 2 td.id s) _ h in
      stuck r u (find_state-bufs 2 td.id s r u q) k
    where
      stuck :
          (r : Option State) (u : Sys K F W TM PM)
          → u.bufs ≡ s.bufs
          → elim r as (λ _. Result (Sys K F W TM PM)) [
            | none ↦ err assert_failed
            | some st ↦ do
              i ← env.run_timeout td.fun (make_iface env td.id (clear_timeout_id st) u)
              finish env false (u32_mod - 1) (record i { timers = retire n i.timers }) u
          ]
            ≡ ok t
          → ⊥
      stuck none u e k = cc
      stuck (some st) u e k =
          let (i, run, fin) =
            >>=-eq-ok (env.run_timeout td.fun (make_iface env td.id (clear_timeout_id st) u)) _ k in
          let (m, few, uses) = wb.timeout_uses td.fun _ i run in
          let bound : i.bufs.num_bufs < u32_mod =
            Uses-num_bufs uses (unfold make_iface in rw e small) in
          cc (finish-beyond false (record i { timers = retire n i.timers }) u bound)

  -- How the loop can end without a fault: nothing but the timers has changed.
  abbrev pub Passed : Sys K F W TM PM → Result (Sys K F W TM PM) → Type 0
  Passed s r = (t : Timers K F) × (r ≡ ok (with_timers t s))

  -- The fault of a timeout of the queue that was due, at a reading of the clock not before the
  -- next one, and valid; only the timers are other than at the start when it is handled.
  pub record Fired (s : Sys K F W TM PM) (r : Result (Sys K F W TM PM)) : Type 0 where
    pub fault : Fault
    pub timeout : Timeout
    pub data_of : TimeoutData K F
    pub reading : ℕ
    pub timers : Timers K F
    pub queued : Queued timeout s.sm.timers.timeouts_q
    pub from_now : s.sm.timers.reads ≤ reading
    pub due : timeout.time ≤ s.sm.timers.clock reading
    pub valid : find_id timeout.timeout_id s.sm.timers.timeout_functions ≡ some data_of
    pub handled : fire env timeout.timeout_id data_of (with_timers timers s) ≡ err fault
    pub result : r ≡ err fault

  -- The rounds of the loop, by what is at the top of the queue.
  module _ (n : ℕ) (s : Sys K F W TM PM) where
    abbrev now : ℕ
    now = s.sm.timers.clock s.sm.timers.reads

    abbrev read : Timers K F
    read = (read_clock s.sm.timers).1

    run_timeouts-empty : top s.sm.timers.timeouts_q ≡ none → run_timeouts env (suc n) s ≡ ok s
    unfolding run_timeouts
    run_timeouts-empty e = ground arith

    pub run_timeouts-early :
        (t : Timeout)
        → top s.sm.timers.timeouts_q ≡ some t
        → now < t.time
        → run_timeouts env (suc n) s ≡ ok (with_timers read s)
    unfolding run_timeouts read_clock
    run_timeouts-early t e h = ground (arith, lt→ltb now t.time h)

    run_timeouts-cancelled :
        (t : Timeout)
        → top s.sm.timers.timeouts_q ≡ some t
        → t.time ≤ now
        → find_id t.timeout_id s.sm.timers.timeout_functions ≡ none
        → run_timeouts env (suc n) s ≡ run_timeouts env n (with_timers (pop_timeout read) s)
    unfolding run_timeouts read_clock
    run_timeouts-cancelled t e h c = ground (arith, le→ltb now t.time h)

    run_timeouts-due :
        (t : Timeout) (td : TimeoutData K F)
        → top s.sm.timers.timeouts_q ≡ some t
        → t.time ≤ now
        → find_id t.timeout_id s.sm.timers.timeout_functions ≡ some td
        → run_timeouts env (suc n) s
          ≡ (fire env t.timeout_id td (with_timers read s) >>= run_timeouts env n)
    unfolding run_timeouts read_clock
    run_timeouts-due t td e h c = ground (arith, le→ltb now t.time h)

  -- What the rest of the loop does, after a cancelled timeout was taken out, is what the loop does.
  earlier_round :
      (s : Sys K F W TM PM) (t : Timeout) {r : Result (Sys K F W TM PM)}
      → top s.sm.timers.timeouts_q ≡ some t
      → (let s' = with_timers (pop_timeout (read_clock s.sm.timers).1) s in
          Passed s' r ⊎ Fired s' r)
      → Passed s r ⊎ Fired s r
  unfolding with_timers pop_timeout read_clock
  earlier_round s t e (inl (q, p)) = inl (q, p)
  earlier_round s t e (inr x) = inr (record {
    fault = x.fault;
    timeout = x.timeout;
    data_of = x.data_of;
    reading = x.reading;
    timers = x.timers;
    queued = (top-Drawn s.sm.timers.timeouts_q t e).1 x.timeout x.queued;
    from_now = omega (arith, x.from_now);
    due = x.due;
    valid = x.valid;
    handled = x.handled;
    result = x.result;
  })

  pub run_timeouts_ends :
      (g n : ℕ) (s : Sys K F W TM PM)
      → WellBehaved env g
      → s.bufs.num_bufs < u32_mod
      → length s.sm.timers.timeouts_q < n
      → Passed s (run_timeouts env n s) ⊎ Fired s (run_timeouts env n s)
  unfolding with_timers pop_timeout read_clock
  run_timeouts_ends g zero s wb small fuel = absurd (omega arith)
  run_timeouts_ends g (suc n) s wb small fuel = elim (Option-cases (top s.sm.timers.timeouts_q)) [
    | inl e ↦ inl (s.sm.timers, run_timeouts-empty n s e)
    | inr (t, e) ↦ elim (Bool-cases (ltb (now n s) t.time)) [
      | inl early ↦ inl (read n s, run_timeouts-early n s t e (ltb→lt _ _ early))
      | inr due ↦ elim (Option-cases (find_id t.timeout_id s.sm.timers.timeout_functions)) [
        | inl c ↦ rw (run_timeouts-cancelled n s t e (ltb-false→le _ _ due) c) (
            earlier_round s t e (
              run_timeouts_ends g n (with_timers (pop_timeout (read n s)) s) wb small
                (omega (arith, (top-Splits s.sm.timers.timeouts_q t e).0))))
        | inr (td, c) ↦ elim (Result-cases (fire env t.timeout_id td (with_timers (read n s) s))) [
          | inl (u, k) ↦ absurd (fire_faults g t.timeout_id td _ u wb small k)
          | inr (f, k) ↦ inr (record {
            fault = f;
            timeout = t;
            data_of = td;
            reading = s.sm.timers.reads;
            timers = read n s;
            queued = (top-Drawn s.sm.timers.timeouts_q t e).0;
            from_now = omega arith;
            due = ltb-false→le _ _ due;
            valid = c;
            handled = k;
            result =
                run_timeouts-due n s t td e (ltb-false→le _ _ due) c
                ∙ ap (λ r. r >>= run_timeouts env n) k;
          })
        ]
      ]
    ]
  ]

  -- If any queued timeout lies in the future, then the timeout loop reads the clock once and
  -- ends, whatever other timeouts are due.
  pub late_hides_due :
      (n : ℕ) (s : Sys K F W TM PM) (late : Timeout)
      → Queued late s.sm.timers.timeouts_q
      → s.sm.timers.clock s.sm.timers.reads < late.time
      → run_timeouts env (suc n) s ≡ ok (with_timers (read_clock s.sm.timers).1 s)
  late_hides_due n s late m h = elim (Option-cases (top s.sm.timers.timeouts_q)) [
    | inl e ↦ absurd (rw (top-none s.sm.timers.timeouts_q e) at m)
    | inr (t, e) ↦
        run_timeouts-early n s t e (omega (arith, (top-Splits s.sm.timers.timeouts_q t e).1 late m))
  ]
