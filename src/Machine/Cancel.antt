-- ===== src/Machine/Cancel.antt =====
-- "Invalidate any previous timeouts": what `runPkt` does to the timeout of a connection.
use moon_state.Prelude.{ℕ, ◌≡◌, ◌≢◌, refl, inl, inr, none, arith, ◌==◌, Bool-cases}
use moon_state.Machine.Types.{State, Timers, timeout_id_invalid}
use moon_state.Machine.Iface.{find_id, erase_id_self, erase_id-other}
use moon_state.Machine.Run.{cancel_timeout}

module _ {K F : Type 0} where
  -- The timeout of a connection, before the function of its state runs: its state names none any
  -- more, its entry is gone from the functions, and all else is as before.
  pub record Cancelled (st : State) (t : Timers K F) (st' : State) (t' : Timers K F) : Type 0 where
    pub state_data : st'.state_data ≡ st.state_data
    pub state : st'.state ≡ st.state
    pub timeout_id : st'.timeout_id ≡ timeout_id_invalid
    pub gone :
        st.timeout_id ≢ timeout_id_invalid → find_id st.timeout_id t'.timeout_functions ≡ none
    pub others :
        (n : ℕ) → n ≢ st.timeout_id → find_id n t'.timeout_functions ≡ find_id n t.timeout_functions
    pub cur_timeout_id : t'.cur_timeout_id ≡ t.cur_timeout_id
    pub timeouts_q : t'.timeouts_q ≡ t.timeouts_q
    pub reads : t'.reads ≡ t.reads

  pub cancel_timeout-Cancelled :
      (st : State) (t : Timers K F) → Cancelled st t (cancel_timeout st t).0 (cancel_timeout st t).1
  unfolding cancel_timeout
  cancel_timeout-Cancelled st t = elim (Bool-cases (st.timeout_id == timeout_id_invalid)) [
    | inl e ↦ rw e (record {
      state_data = refl;
      state = refl;
      timeout_id = ground (arith, e);
      gone = λ ne. absurd (ground (arith, e, ne));
      others = λ n ne. refl;
      cur_timeout_id = refl;
      timeouts_q = refl;
      reads = refl;
    })
    | inr e ↦ rw e (record {
      state_data = refl;
      state = refl;
      timeout_id = refl;
      gone = λ ne. erase_id_self st.timeout_id t.timeout_functions;
      others = λ n ne. erase_id-other st.timeout_id n t.timeout_functions ne;
      cur_timeout_id = refl;
      timeouts_q = refl;
      reads = refl;
    })
  ]
