-- ===== src/Wayland/DataControl/Loop/Calls.antt =====
-- Any sequence of calls by X threads, events of the compositor and steps of the loop.
use Prim.Native.String.{String}
use xwlrvnc.Base.{ℕ, Bool, List, [], ◌∷◌, Option}
use xwlrvnc.Clip.Types.{Bytes, Sel, DataOffer, Job}
use xwlrvnc.Clip.Jobs.{post, sweep, drain_wake}
use xwlrvnc.Clip.State.{Clipboard}
use xwlrvnc.Clip.Transitions.{
  SelectionEvent, x_took, x_released, x_fetched, x_fetch_failed, x_owner_gone,
}
use xwlrvnc.Wayland.DataControl.Sends.{WriteResult}
use xwlrvnc.Wayland.DataControl.Receives.{ReadResult}
use xwlrvnc.Wayland.DataControl.Device.Preferred.{Arrival, arrive}
use xwlrvnc.Wayland.DataControl.Loop.{
  State, PipeResult, run_clip_jobs, flush_sends, flush_receives, data_offer, offer_event,
  update_selection, send_event, cancelled, begin_draining, wayland_lost, drop_state,
}

-- What an X thread does to the clipboard.
pub data XCall : Type 0 where
  posts : ℕ → Job → XCall
  sweeps : ℕ → XCall
  takes : Sel → (window client time now : ℕ) → XCall
  releases : Sel → (time now later : ℕ) → XCall
  fetched : Sel → (window time : ℕ) → Bytes → (now later : ℕ) → XCall
  fetch_fails : Sel → (window time now later : ℕ) → XCall
  owner_goes : Sel → ℕ → Option ℕ → SelectionEvent → (now later : ℕ) → XCall

unfoldable pub x_step : XCall → Clipboard → Clipboard
x_step (posts now job) c = record c { jobs = (post now job c.jobs).0 }
x_step (sweeps now) c = record c { jobs = sweep now c.jobs }
x_step (takes sel window client time now) c = (x_took sel window client time now c).0
x_step (releases sel time now later) c = (x_released sel time now later c).0
x_step (fetched sel window time bytes now later) c = (x_fetched sel window time bytes now later c).0
x_step (fetch_fails sel window time now later) c = (x_fetch_failed sel window time now later c).0
x_step (owner_goes sel client window subtype now later) c =
    (x_owner_gone sel client window subtype now later c).0

pub data Event : Type 0 where
  calls : XCall → Event
  drains : Event
  arrives : Arrival → Event
  offers_id : ℕ → Event
  offers_mime : ℕ → String → Event
  selects : Sel → Option DataOffer → ℕ → Event
  sends : Bool → List WriteResult → (now fd : ℕ) → Bytes → Event
  cancels : Event
  runs_jobs : (ℕ → PipeResult) → ℕ → Event
  flushes_sends : ℕ → (ℕ → List WriteResult) → Event
  flushes_receives : ℕ → (ℕ → List ReadResult) → Event
  begins loses drops : Event

unfoldable pub step : State → Event → State
step s (calls call) = record s { clipboard = x_step call s.clipboard }
step s drains = record s { clipboard = record s.clipboard { jobs = drain_wake s.clipboard.jobs } }
step s (arrives a) =
    let (devices, c) = arrive (s.devices, s.clipboard) a in
    record s { devices = devices; clipboard = c }
step s (offers_id id) = data_offer id s
step s (offers_mime id mime) = offer_event id mime s
step s (selects sel offer now) = (update_selection sel offer now s).0
step s (sends nonblocking results now fd value) = send_event nonblocking results now fd value s
step s cancels = cancelled s
step s (runs_jobs pipes now) = run_clip_jobs pipes now s
step s (flushes_sends now results) = flush_sends now results s
step s (flushes_receives now results) = flush_receives now results s
step s begins = begin_draining s
step s loses = wayland_lost s
step s drops = drop_state s

unfoldable pub run : State → List Event → State
run s [] = s
run s (e ∷ es) = run (step s e) es
