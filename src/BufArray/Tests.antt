-- ===== src/BufArray/Tests.antt =====
-- The packet array at work.
use moon_state.Prelude.{
  ℕ, ◌≡◌, ◌≢◌, refl, true, false, none, some, List, [], ◌∷◌, ◌++◌, Perm, length, arith,
}
use moon_state.Fault.{ok}
use moon_state.BufArray.{
  Ptr, BufArray, add_pkt, grow, put, count_true, get_send_count, get_free_count, get_send_bufs,
  get_free_bufs, copy_loop,
}
use moon_state.BufArray.Entries.{Entry, Holds}
use moon_state.BufArray.Ops.{add_pkt-Holds}
use moon_state.BufArray.Copy.{as_cells, copies_split}

-- Three packets in four cells, the second one to be freed.
abbrev three : BufArray
three = record {
  pkts = some 30 ∷ some 31 ∷ some 30 ∷ none ∷ [];
  send_mask = true ∷ false ∷ true ∷ false ∷ [];
  num_bufs = 3;
  num_slots = 4;
  from_lua = false;
}

abbrev three_entries : List Entry
three_entries = (30, true) ∷ (31, false) ∷ (30, true) ∷ []

three-Holds : Holds three three_entries
three-Holds = record {
  spare = 1;
  cells = refl;
  mask = refl;
  bufs = refl;
  slots = refl;
  used = omega arith;
  small = omega arith;
}

-- Two packets in two cells: the next one makes the array grow.
grows :
    (add_pkt 9 (record {
      pkts = some 7 ∷ some 8 ∷ [];
      send_mask = true ∷ false ∷ [];
      num_bufs = 2;
      num_slots = 2;
      from_lua = true;
    })).pkts
    ≡ some 7 ∷ some 8 ∷ some 9 ∷ none ∷ []
unfolding add_pkt grow put
grows = refl

copies :
    (get_send_bufs three ≡ ok (some 30 ∷ some 30 ∷ [])) × (get_free_bufs three ≡ ok (some 31 ∷ []))
unfolding get_send_bufs get_free_bufs get_send_count get_free_count count_true copy_loop
copies = (refl, refl)

add_pkt-Holds_example :
    Holds (add_pkt 9 three) ((30, true) ∷ (31, false) ∷ (30, true) ∷ (9, true) ∷ [])
add_pkt-Holds_example = add_pkt-Holds 9 three-Holds (omega arith)

thirty : ◌≢◌ {A = ℕ} 30 0
thirty e = omega (arith, e)

copies_split_example :
    (send free : List Ptr) × (get_send_bufs three ≡ ok (as_cells send))
    × (get_free_bufs three ≡ ok (as_cells free))
    × (get_send_count three ≡ length send)
    × (get_free_count three ≡ length free)
    × Perm (send ++ free) (30 ∷ 31 ∷ 30 ∷ [])
copies_split_example = copies_split three-Holds
