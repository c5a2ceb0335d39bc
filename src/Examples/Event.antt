-- ===== src/Examples/Event.antt =====
-- Concrete runs of the outbox and of the clock.
use xwlrvnc.Base.{◌+◌, ◌≡◌, refl, true, false, some, List, [], ◌∷◌, ◌++◌, arith}
use xwlrvnc.Event.Outbox.Calls.{Call, event, reply, run, step, writes}
use xwlrvnc.Event.Outbox.Sequence.{accepted_run, history, run_in_order}
use xwlrvnc.Event.Outbox.Bounds.{IsValid, run-new-IsValid}
use xwlrvnc.Event.Time.{server_time_ms, server_time_stands}
use xwlrvnc.Event.Outbox.{
  Client, enqueue, new, send, send_event_bytes, send_reply, stamp, writer_step,
}

-- A reply of sequence number 1, its writing, and an event.
abbrev calls : List Call
calls = reply 1 (1 ∷ 9 ∷ 0 ∷ 0 ∷ []) ∷ writes true ∷ event (28 ∷ 0 ∷ 7 ∷ 7 ∷ 5 ∷ []) ∷ []

abbrev new_client : Client
new_client = record {
  outbox = record { queue = []; bytes = 0; last_seq = 0; closed = false };
  seq = 0;
  randr_window = 0;
  cursor_window = 0;
  selections = [];
  dead = false;
  root_structure = false;
  shut = false;
  wire = [];
}

abbrev after : Client
after = record new_client {
  outbox = record {
    queue = (28 ∷ 0 ∷ 1 ∷ 0 ∷ 5 ∷ []) ∷ [];
    bytes = 5;
    last_seq = 1;
    closed = false;
  };
  wire = (1 ∷ 9 ∷ 1 ∷ 0 ∷ []) ∷ [];
}

-- After one event more.
abbrev sent : Client
sent = record after {
  outbox = record {
    queue = (28 ∷ 0 ∷ 1 ∷ 0 ∷ 5 ∷ []) ∷ (2 ∷ 0 ∷ 3 ∷ 0 ∷ []) ∷ [];
    bytes = 9;
    last_seq = 3;
    closed = false;
  };
}

runs : run new_client calls ≡ some after
unfolding run step send_reply send_event_bytes send enqueue stamp writer_step
runs = refl

run_in_order_example : history after ≡ history new_client ++ accepted_run new_client calls
run_in_order_example = run_in_order new_client calls after (runs) (refl)

run-new-IsValid_example : IsValid after
unfolding new
run-new-IsValid_example = run-new-IsValid calls after (runs)

server_time_stands_example : server_time_ms (0 + 2147483648) 0 ≡ 0
server_time_stands_example =
    server_time_stands 0 2147483648 (omega arith) (omega arith) (omega arith)
