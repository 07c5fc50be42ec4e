-- ===== src/BufArray.antt =====
-- include/bufArray.hpp: the array of packet pointers with its mask of packets to send.
pub mod Entries
pub mod Ops
pub mod Copy
mod Tests
use moon_state.Prelude.{
  ℕ, zero, suc, ◌+◌, ◌-◌, ◌*◌, ◌%◌, ◌^◌, Bool, true, false, not, Option, none, some, List, [], ◌∷◌,
  ◌++◌, ltb, ◌==◌, if◌then◌else◌, length, set, replicate, resize,
}
use moon_state.Fault.{Result, ok, err, ◌>>=◌, ◌>>◌, assert, assert_failed, no_fuel, at}

-- A `Packet *`; 0 is `nullptr`.
abbrev pub Ptr : Type 0
Ptr = ℕ

abbrev pub u32_mod : ℕ
u32_mod = 2 ^ 32

-- The cells of `pkts` that `malloc` left unset are `none`. `free(pkts)` has no effect that the
-- model sees, so `fromLua` is a plain flag.
pub record BufArray : Type 0 where
  pub pkts : List (Option Ptr)
  pub send_mask : List Bool
  pub num_bufs : ℕ
  pub num_slots : ℕ
  pub from_lua : Bool

some_all : List Ptr → List (Option Ptr)
some_all [] = []
some_all (p ∷ ps) = some p ∷ some_all ps

-- `BufArray(pkts, numPkts, fromLua)`, over an array of exactly `numPkts` pointers.
pub make : List Ptr → Bool → Result BufArray
unfolding some_all
make ps from_lua =
    if length ps == 0
    then err assert_failed
    else ok (record {
      pkts = some_all ps;
      send_mask = replicate (length ps) true;
      num_bufs = length ps;
      num_slots = length ps;
      from_lua = from_lua;
    })

-- `markDropPkt(uint32_t)`
unfoldable pub mark_drop : ℕ → BufArray → Result BufArray
mark_drop i b = do assert (ltb i b.num_bufs); ok (record b { send_mask = set b.send_mask i false })

-- `markSendPkt(uint32_t)`
unfoldable pub mark_send : ℕ → BufArray → Result BufArray
mark_send i b = do assert (ltb i b.num_bufs); ok (record b { send_mask = set b.send_mask i true })

-- The loop of `markDropPkt(Packet *)`: the first `n` cells, from the front.
drop_loop : ℕ → Ptr → List (Option Ptr) → List Bool → List Bool
drop_loop zero p cells mask = mask
drop_loop (suc n) p [] mask = mask
drop_loop (suc n) p (c ∷ cells) [] = []
drop_loop (suc n) p (none ∷ cells) (m ∷ mask) = m ∷ drop_loop n p cells mask
drop_loop (suc n) p (some q ∷ cells) (m ∷ mask) =
    (if p == q then false else m) ∷ drop_loop n p cells mask

-- `markDropPkt(Packet *)`
pub mark_drop_ptr : Ptr → BufArray → Result BufArray
unfolding drop_loop
mark_drop_ptr p b = do
  assert (not (p == 0))
  ok (record b { send_mask = drop_loop b.num_bufs p b.pkts b.send_mask })

-- The growth step of `addPkt`. `numSlots` is a `uint32_t`; the size given to `malloc` is not.
grow : BufArray → BufArray
grow b = record b {
  pkts = b.pkts ++ replicate b.num_slots none;
  send_mask = resize (b.num_slots * 2 % u32_mod) false b.send_mask;
  num_slots = b.num_slots * 2 % u32_mod;
  from_lua = false;
}

-- The write at the end of `addPkt`.
put : Ptr → BufArray → BufArray
put p b = record b {
  pkts = set b.pkts b.num_bufs (some p);
  send_mask = set b.send_mask b.num_bufs true;
  num_bufs = (b.num_bufs + 1) % u32_mod;
}

pub add_pkt : Ptr → BufArray → BufArray
unfolding grow put
add_pkt p b = put p (if b.num_bufs == b.num_slots then grow b else b)

count_true : List Bool → ℕ
count_true [] = 0
count_true (true ∷ m) = suc (count_true m)
count_true (false ∷ m) = count_true m

pub get_send_count : BufArray → ℕ
unfolding count_true
get_send_count b = count_true b.send_mask

-- The difference of two `uint32_t`.
pub get_free_count : BufArray → ℕ
unfolding get_send_count
get_free_count b = (b.num_bufs + u32_mod - get_send_count b) % u32_mod

-- `want` is the value of the mask that the loop looks for; the result is what it writes.
copy_loop : Bool → List Bool → List (Option Ptr) → ℕ → ℕ → ℕ → ℕ → Result (List (Option Ptr))
copy_loop want mask cells zero done count cur = if ltb done count then err no_fuel else ok []
copy_loop want mask cells (suc fuel) done count cur =
    let hit = (do
      c ← at cells cur
      rest ← copy_loop want mask cells fuel (done + 1) count (cur + 1)
      ok (c ∷ rest)) in
    let miss = copy_loop want mask cells fuel done count (cur + 1) in
    if ltb done count
    then (do
      m ← at mask cur
      if m then (if want then hit else miss) else (if want then miss else hit))
    else ok []

pub get_send_bufs : BufArray → Result (List (Option Ptr))
unfolding copy_loop get_send_count
get_send_bufs b = copy_loop true b.send_mask b.pkts (length b.send_mask) 0 (get_send_count b) 0

pub get_free_bufs : BufArray → Result (List (Option Ptr))
unfolding copy_loop get_free_count
get_free_bufs b = copy_loop false b.send_mask b.pkts (length b.send_mask) 0 (get_free_count b) 0

unfoldable pub get_total_count : BufArray → ℕ
get_total_count b = b.num_bufs

-- `operator[]`
unfoldable pub index : BufArray → ℕ → Result (Option Ptr)
index b i = at b.pkts i
