-- ===== src/Tcp/ConCtl.antt =====
-- `TcpConCtlSimple` and `TcpProtoJoke`.
use moon_state.Prelude.{
  ℕ, zero, suc, ◌+◌, ◌-◌, ◌%◌, ◌≢◌, ◌<◌, ◌≡◌, refl, arith, Option, none, some, [], ◌∷◌, ltb, leb,
  ◌==◌, if◌then◌else◌,
}
use moon_state.Tcp.Data.{u32, ConCtl, Proto, send}

-- `class TcpConCtlSimple`
pub record Simple : Type 0 where
  pub last_ack : ℕ
  pub already_seen : ℕ

-- `initSeq`, which the server never calls.
unfoldable pub init_seq : ℕ → ℕ → Simple → Simple
init_seq seq ack s = record s { last_ack = ack }

unfoldable pub handle_packet : ℕ → ℕ → Simple → Simple
handle_packet seq ack s =
    if s.last_ack == ack
    then if ltb ack seq
      then record s { already_seen = (s.already_seen + 1) % u32 }
      else record { last_ack = ack; already_seen = 0 }
    else record { last_ack = ack; already_seen = 0 }

-- `reset`: `some` of what it writes through its argument if it returns true.
unfoldable pub reset : Simple → Option ℕ
reset s = if leb 3 s.already_seen then some s.last_ack else none

-- `getConWindow`, the largest `unsigned int`.
unfoldable pub con_window : Simple → ℕ
con_window s = u32 - 1

-- The object before its first packet holds whatever was in its memory.
abbrev pub simple : Simple → ConCtl Simple
simple uninitialised = record {
  initial = uninitialised;
  handle_packet = handle_packet;
  reset = reset;
  con_window = con_window;
}

-- `TcpProtoJoke::handlePacket`: an echo of the data.
abbrev pub joke : {P : Type 0} → P → Proto P
joke p = record { initial = p; handle_packet = λ bytes q. (q, send bytes ∷ []) }

-- `n` packets with the same numbers.
pub repeat_packet : ℕ → ℕ → ℕ → Simple → Simple
repeat_packet zero seq ack s = s
repeat_packet (suc n) seq ack s = handle_packet seq ack (repeat_packet n seq ack s)

module _ (seq ack : ℕ) (s : Simple) (unacked : ack < seq) (new : s.last_ack ≢ ack) where
  -- What a run of equal acknowledgements counts up to.
  counted :
      (n : ℕ)
      → n < u32
      → ((repeat_packet (suc n) seq ack s).last_ack ≡ ack)
        × ((repeat_packet (suc n) seq ack s).already_seen ≡ n)
  unfolding repeat_packet handle_packet
  counted zero h = (ground arith, ground arith)
  counted (suc n) h =
      let (e, k) = counted n (omega arith) in (ground (arith, e, k), ground (arith, e, k))

  -- The congestion control asks to resend exactly if an acknowledgement has been repeated three
  -- times: after a new one and `n` packets that repeat it, `reset` gives that number if `n` is at
  -- least three, and nothing otherwise. Conditions: the acknowledgement was not the last one
  -- before, is below the sender's number, and `n` is below 2^32.
  pub reset-repeat_packet :
      (n : ℕ)
      → n < u32
      → reset (repeat_packet (suc n) seq ack s) ≡ (if leb 3 n then some ack else none)
  unfolding reset
  reset-repeat_packet n h = let (e, k) = counted n h in rw (k, e) refl
