-- ===== src/Tcp/Data.antt =====
-- `segment`, `connection` and `TcpIface`.
use moon_state.Prelude.{
  ℕ, zero, suc, ◌+◌, ◌-◌, ◌%◌, ◌^◌, Bool, true, false, Option, List, [], ◌∷◌, ◌++◌, ltb, leb,
  if◌then◌else◌, length, take, drop,
}

abbrev pub mss : ℕ
mss = 1460

abbrev pub u16 : ℕ
u16 = 2 ^ 16

abbrev pub u32 : ℕ
u32 = 2 ^ 32

-- The buffer at `dataPtr` is the list `data_ptr`, of which the first `data_len` bytes count.
pub record Segment : Type 0 where
  pub data_ptr : List ℕ
  pub seq_number : ℕ
  pub data_len : ℕ

-- What the server asks of its congestion control; a value of `C` is the object.
pub record ConCtl (C : Type 0) : Type 0 where
  pub initial : C
  pub handle_packet : ℕ → ℕ → C → C
  pub reset : C → Option ℕ
  pub con_window : C → ℕ

-- What the protocol on top asks of its `TcpIface`.
pub data Request : Type 0 where
  close : Request
  send : List ℕ → Request

-- The protocol on top; a value of `P` is the object.
pub record Proto (P : Type 0) : Type 0 where
  pub initial : P
  pub handle_packet : List ℕ → P → P × List Request

pub record Connection (C P : Type 0) : Type 0 where
  pub seq_local : ℕ
  pub seq_remote : ℕ
  pub data_to_send : List Segment
  pub data_already_sent : List Segment
  pub send_window : ℕ
  pub ip_id : ℕ
  pub close_connection_after_sending : Bool
  pub con_ctl : C
  pub proto : P

-- `new connection()`
unfoldable pub new_connection : {C P : Type 0} → ConCtl C → Proto P → Connection C P
new_connection ctl protocol = record {
  seq_local = 0;
  seq_remote = 0;
  data_to_send = [];
  data_already_sent = [];
  send_window = 0;
  ip_id = 0;
  close_connection_after_sending = false;
  con_ctl = ctl.initial;
  proto = protocol.initial;
}

unfoldable pub min : ℕ → ℕ → ℕ
min a b = if ltb b a then b else a

module _ {C P : Type 0} where
  -- A segment with the next sequence number goes to the end of the queue.
  unfoldable pub enqueue : List ℕ → ℕ → Connection C P → Connection C P
  enqueue buf len c = record c {
    seq_local = (c.seq_local + len) % u32;
    data_to_send =
        c.data_to_send ++ record { data_ptr = buf; seq_number = c.seq_local; data_len = len } ∷ [];
  }

  -- The loop of `sendData`, behind the first `total` bytes; each round takes one unit of fuel.
  unfoldable pub send_rest : ℕ → ℕ → List ℕ → Connection C P → Connection C P
  unfolding enqueue min
  send_rest zero total bytes c = c
  send_rest (suc n) total bytes c =
      let cur = min (length bytes - total) mss in
      let rest = send_rest n (total + cur) bytes (enqueue (take cur (drop total bytes)) cur c) in
      if ltb total (length bytes) then rest else c

  -- `sendData`; what `data` points to are the bytes `bytes`. The first segment keeps the buffer.
  unfoldable pub send_data : List ℕ → Connection C P → Connection C P
  unfolding send_rest
  send_data bytes c =
      if leb (length bytes) mss
      then enqueue bytes (length bytes) c
      else send_rest (length bytes) mss bytes (enqueue bytes mss c)

  -- `close` and `sendData`, in the order in which the protocol calls them.
  unfoldable pub serve : List Request → Connection C P → Connection C P
  unfolding send_data
  serve [] c = c
  serve (close ∷ rs) c = serve rs (record c { close_connection_after_sending = true })
  serve (send bytes ∷ rs) c = serve rs (send_data bytes c)
