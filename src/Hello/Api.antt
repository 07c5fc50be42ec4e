-- ===== src/Hello/Api.antt =====
-- What the C interfaces of the protocols do with an array of packets.
use moon_state.Prelude.{ℕ, true, ◌==◌, ==_iff, Option, List}
use moon_state.Fault.{Result, ok, ◌>>=◌}
use moon_state.BufArray.{
  Ptr, BufArray, make, get_send_count, get_free_count, get_send_bufs, get_free_bufs,
}
use moon_state.Machine.Table.{Keys}
use moon_state.Machine.Types.{Sys}
use moon_state.Hello.Heap.{World}

-- `ConnectionID::operator==`: the connection is named by the number in `ident`.
abbrev pub ident_keys : Keys ℕ
ident_keys = record { same = λ a b. a == b; same_iff = ==_iff }

-- `srand`: the numbers that `rand` returns from now on.
unfoldable pub seed : {H : Type 0} → (ℕ → ℕ) → World H → World H
seed numbers w = record w { random = numbers; randoms = 0 }

-- What a call that takes packets leaves behind: the `BufArray` that it returns, which is that of
-- `sys`, and the two counts that it writes.
pub record Counted (S : Type 0) : Type 0 where
  pub send_count : ℕ
  pub free_count : ℕ
  pub sys : S

module _ {K F W TM PM : Type 0} where
  -- A call on the packets `ps`: the array is made, `run` works on it, and the counts are read.
  unfoldable pub with_packets :
      (Sys K F W TM PM → Result (Sys K F W TM PM))
      → List Ptr
      → Sys K F W TM PM
      → Result (Counted (Sys K F W TM PM))
  with_packets run ps s = do
    b ← make ps true
    t ← run (record s { bufs = b })
    ok (record { send_count = get_send_count t.bufs; free_count = get_free_count t.bufs; sys = t })

-- The two arrays that `getPkts` fills.
unfoldable pub copy_both : BufArray → Result (List (Option Ptr) × List (Option Ptr))
copy_both b = do send ← get_send_bufs b; free ← get_free_bufs b; ok (send, free)
