-- ===== src/Event/Outbox/Calls.antt =====
-- The calls that the connection thread, the Wayland thread and the writer thread make of one client,
-- as a step of its state, and any interleaving of them as a list.
use xwlrvnc.Base.{ℕ, Bool, List, [], ◌∷◌, Option, none, some}
use xwlrvnc.Event.Outbox.{
  Client, set_seq, close, drop_client, write_setup, send_reply, send_event_bytes, writer_step,
}

pub data Call : Type 0 where
  setup : List ℕ → Call
  reply : ℕ → List ℕ → Call
  event : List ℕ → Call
  sequence : ℕ → Call
  writes : Bool → Call
  drops closes : Call

-- `none` is the panic of a frame shorter than its sequence field.
unfoldable pub step : Client → Call → Option Client
step c (setup bytes) = some (write_setup c bytes).0
step c (reply seq buf) = elim (send_reply c seq buf) [ none ↦ none | some (d, _) ↦ some d ]
step c (event buf) = send_event_bytes c buf
step c (sequence seq) = some (set_seq c seq)
step c (writes written) = some (writer_step c written)
step c drops = some (drop_client c)
step c closes = some (close c)

unfoldable pub run : Client → List Call → Option Client
run c [] = some c
run c (call ∷ calls) = elim (step c call) [ none ↦ none | some d ↦ run d calls ]
