-- ===== src/Tcp/Tests.antt =====
-- Concrete inputs for the theorems about the TCP server.
use moon_state.Prelude.{ℕ, ◌≡◌, refl, arith, true, false, some, [], ◌∷◌, replicate}
use moon_state.Fault.{ok}
use moon_state.BufArray.{Ptr}
use moon_state.Machine.Types.{Iface}
use moon_state.Hello.Heap.{World}
use moon_state.Hello.Sample.{Objects, sample_heap, packet, world_of}
use moon_state.Tcp.Data.{Segment, Connection, ConCtl, Proto, send_data}
use moon_state.Tcp.ConCtl.{Simple, simple, joke}
use moon_state.Tcp.Segments.{payload, payloads, Queued, send_data-Queued}
use moon_state.Tcp.Window.{take_segment}
use moon_state.Tcp.Queues.{take_segment_loses}
use moon_state.Tcp.Handlers.{Sent, send_loop}
use moon_state.Tcp.Loop.{Within, send_loop_returns}

abbrev ctl : ConCtl Simple
ctl = simple (record { last_ack = 0; already_seen = 0 })

abbrev protocol : Proto ℕ
protocol = joke 0

abbrev Conn : Type 0
Conn = Connection Simple ℕ

abbrev seg_a : Segment
seg_a = record { data_ptr = 1 ∷ 2 ∷ 3 ∷ []; seq_number = 10; data_len = 3 }

abbrev seg_b : Segment
seg_b = record { data_ptr = 4 ∷ 5 ∷ []; seq_number = 13; data_len = 2 }

abbrev opened : Conn
opened = record {
  seq_local = 15;
  seq_remote = 7;
  data_to_send = seg_a ∷ seg_b ∷ [];
  data_already_sent = [];
  send_window = 4;
  ip_id = 0;
  close_connection_after_sending = false;
  con_ctl = record { last_ack = 0; already_seen = 0 };
  proto = 0;
}

send_data-Queued_example : Queued (replicate 1500 7) opened (send_data (replicate 1500 7) opened)
send_data-Queued_example = send_data-Queued (replicate 1500 7) opened

take_segment_loses_example :
    (payload (take_segment 2 seg_a (seg_b ∷ []) opened).0 ≡ [])
    × ((take_segment 2 seg_a (seg_b ∷ []) opened).1 ≡ 2)
    × (payloads (take_segment 2 seg_a (seg_b ∷ []) opened).2.data_to_send ≡ 4 ∷ 5 ∷ [])
take_segment_loses_example =
    take_segment_loses 2 seg_a (seg_b ∷ []) opened (omega arith) (omega arith)

abbrev at_hundreds : Ptr → ℕ
at_hundreds p = p

abbrev alloc : ℕ → World (Objects Conn) → Ptr × World (Objects Conn)
alloc f w = (900, w)

abbrev iface : Iface ℕ ℕ (World (Objects Conn))
iface = record {
  conn_id = 7;
  state = record { state_data = 0; state = 1; timeout_id = 0 };
  bufs = record { pkts = []; send_mask = []; num_bufs = 0; num_slots = 0; from_lua = false };
  send_pkt = true;
  immediate_transition = false;
  get_pkt_cb = some 5;
  timers = record {
    cur_timeout_id = 0;
    timeouts_q = [];
    timeout_functions = [];
    clock = λ n. n;
    reads = 0;
  };
  world = world_of opened (packet 0 0 0);
}

send_loop_returns_example :
    (s : Sent Simple ℕ ℕ ℕ (World (Objects Conn))) × (send_loop ctl protocol sample_heap at_hundreds
        alloc 3 true 4 0 0 0 34 opened iface
      ≡ ok s)
    × Within 4 opened s.conn
send_loop_returns_example =
    send_loop_returns ctl protocol sample_heap at_hundreds alloc 3 true 4 0 0 0 34 opened iface 5
      (omega arith) (omega arith) refl
