-- ===== src/Machine/TimerTests.antt =====
-- The timeout loop on the sample program.
use moon_state.Prelude.{◌≡◌, refl, inl, inr, [], ◌∷◌, arith}
use moon_state.Fault.{ok}
use moon_state.Machine.Timeouts.{run_timeouts, with_timers, read_clock}
use moon_state.Machine.Deadline.{late_hides_due}
use moon_state.Machine.Sample.{sample_env, due, later, timed}

-- The timeout that is due stays in the queue, behind the later one.
late_hides_due_example :
    run_timeouts sample_env 3 (timed (due ∷ later ∷ []))
    ≡ ok
        (with_timers (read_clock (timed (due ∷ later ∷ [])).sm.timers).1 (timed (due ∷ later ∷ [])))
late_hides_due_example =
    late_hides_due sample_env 2 (timed (due ∷ later ∷ [])) later (inr (inl refl)) (omega arith)
