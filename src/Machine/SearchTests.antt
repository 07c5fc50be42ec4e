-- ===== src/Machine/SearchTests.antt =====
-- The search for connections and the function table on the sample program.
use moon_state.Prelude.{ℕ, ◌≡◌, refl, none, some}
use moon_state.Fault.{ok, err, uncaught}
use moon_state.Machine.Types.{Env}
use moon_state.Machine.Find.{find_state, find_and_erase, insert_state, accept, start_data}
use moon_state.Machine.Lookup.{tracked, waiting, adopt, find_once, find_state-once}
use moon_state.Machine.Moves.{Finds, Untouched, find_state_lem, find_state_fault}
use moon_state.Machine.Sample.{Script, greet, Map, sample, open_state, sample_env}

-- The connection 5 waits in the pool.
adopted_five :
    find_state sample_env 2 5 sample ≡ ok (some open_state, adopt sample_env 5 open_state sample)
unfolding find_state find_and_erase insert_state adopt
adopted_five = refl

find_state_lem_example :
    Finds sample_env 5 sample (some open_state) (adopt sample_env 5 open_state sample)
    × (tracked sample_env (adopt sample_env 5 open_state sample) 5 ≡ some open_state)
    × (tracked sample_env sample 5 ≡ none
        → waiting sample_env (adopt sample_env 5 open_state sample) 5 ≡ none)
    × Untouched sample_env 5 sample (adopt sample_env 5 open_state sample)
find_state_lem_example =
    find_state_lem sample_env 5 sample (adopt sample_env 5 open_state sample) (some open_state)
      (refl, refl) adopted_five

-- A program whose start function throws.
abbrev throwing_env : Env ℕ Script ℕ Map Map
throwing_env = record sample_env { run_start = λ f id w. err uncaught }

throws : find_state throwing_env 2 3 sample ≡ err uncaught
unfolding find_state find_and_erase insert_state accept start_data
throws = refl

find_state_fault_example :
    (g : Script) × (some greet ≡ some g) × (throwing_env.run_start g 3 1000 ≡ err uncaught)
find_state_fault_example = find_state_fault throwing_env 3 sample uncaught (refl, refl) throws

find_state-once_example : find_state sample_env 4 5 sample ≡ find_once sample_env 5 sample
find_state-once_example = find_state-once sample_env 2 5 sample refl
