-- ===== src/Wayland/DataControl/Loop.antt =====
-- The state of the Wayland thread that the clipboard is part of, the jobs it runs, the events it
-- dispatches and the passes of its loop in bridge/wayland/mod.rs. A call of an X thread that falls inside
-- one of these counts as before or after it.
pub mod Calls
pub mod Held
pub mod Settled
pub mod Offers
pub mod Deadlines
pub mod Passes
use Prim.Native.String.{String}
use xwlrvnc.Base.{
  ℕ, Bool, true, false, ◌&&◌, leb, if◌then◌else◌, List, [], ◌∷◌, ◌++◌, Option, none, some, length,
  map, is_empty,
}
use xwlrvnc.Base.Assoc.{get, insert, remove}
use xwlrvnc.Clip.Types.{
  Bytes, Sel, clipboard, primary, DataOffer, ext, wlr, Job, publish, receive, destroy,
}
use xwlrvnc.Clip.Jobs.{finish, take, post, set_running}
use xwlrvnc.Clip.State.{Clipboard, offer_at, default_clipboard, max_selection_bytes}
use xwlrvnc.Clip.Transitions.{Effects, no_effects, wayland_announced, offers}
use xwlrvnc.Wayland.DataControl.Sends.{
  WriteResult, Sends, no_sends, queue_send, flush_pending_sends,
}
use xwlrvnc.Wayland.DataControl.Receives.{
  ReadResult, PendingReceive, max_pending_receives, receive_idle_timeout, receive_timeout,
  flush_pending_receives,
}
use xwlrvnc.Wayland.DataControl.Device.{
  DataDevice, Request, receive_offer, destroy_offer, destroy_source, Devices, no_devices,
  publish_on,
}

pub record State : Type 0 where
  pub clipboard : Clipboard
  pub devices : Devices
  pub offer_mimes : List (ℕ × List String)
  pub sends : Sends
  pub receives : List PendingReceive
  pub noprimary : Bool

unfoldable pub new : Bool → State
new noprimary = record {
  clipboard = default_clipboard;
  devices = no_devices;
  offer_mimes = [];
  sends = no_sends;
  receives = [];
  noprimary = noprimary;
}

-- Requests to the compositor.
abbrev pub ask : List Request → State → State
ask rs s = record s { devices = record s.devices { requests = s.devices.requests ++ rs } }

-- Dropping a conversion.
unfoldable pub refuse : ℕ → State → State
refuse conversion s = record s {
  clipboard = record s.clipboard { jobs = finish s.clipboard.jobs conversion none };
}

-- What making a non-blocking pipe comes to: none, one that stays blocking, or its end to read from.
pub data PipeResult : Type 0 where
  no_pipe blocking : PipeResult
  ready : ℕ → PipeResult

-- The transfer that is parked.
abbrev pub parked :
    (now fd : ℕ) → Sel → String → DataOffer → (since conversion : ℕ) → PendingReceive
parked now fd sel mime offer since conversion = record {
  fd = fd;
  sel = sel;
  mime = mime;
  offer = offer;
  buf = [];
  since = since;
  progress_at = now;
  idle = receive_idle_timeout;
  total = receive_timeout;
  max = max_selection_bytes;
  conversion = conversion;
}

unfoldable pub start_on_pipe :
    PipeResult → ℕ → Sel → String → DataOffer → (since conversion : ℕ) → State → State
start_on_pipe no_pipe now sel mime offer since conversion s = refuse conversion s
start_on_pipe blocking now sel mime offer since conversion s =
    refuse conversion (ask (receive_offer offer mime ∷ []) s)
start_on_pipe (ready fd) now sel mime offer since conversion s =
    let t = ask (receive_offer offer mime ∷ []) s in
    record t { receives = t.receives ++ (parked now fd sel mime offer since conversion ∷ []) }

-- On the offer that `offer_at` returned.
unfoldable pub start_from :
    Option DataOffer → PipeResult → ℕ → Sel → String → (since conversion : ℕ) → State → State
start_from none pipe now sel mime since conversion s = refuse conversion s
start_from (some offer) pipe now sel mime since conversion s =
    if leb max_pending_receives (length s.receives)
    then refuse conversion s
    else start_on_pipe pipe now sel mime offer since conversion s

unfoldable pub start_receive :
    PipeResult → ℕ → Sel → String → (generation since conversion : ℕ) → State → State
start_receive pipe now sel mime generation since conversion s =
    start_from (offer_at sel generation s.clipboard) pipe now sel mime since conversion s

-- What the publisher asks for; without one the job is dropped.
abbrev pub publish_requests : Option DataDevice → Sel → Option Bytes → List Request
publish_requests (some device) sel value = publish_on device sel value
publish_requests none sel value = []

-- `pipes` is by conversion.
unfoldable pub run_job : (ℕ → PipeResult) → ℕ → Job → State → State
run_job pipes now (publish sel value) s = ask (publish_requests s.devices.publish sel value) s
run_job pipes now (receive sel mime generation since conversion) s =
    start_receive (pipes conversion) now sel mime generation since conversion s
run_job pipes now (destroy os) s = ask (map destroy_offer os) s

unfoldable pub run_all : (ℕ → PipeResult) → ℕ → List Job → State → State
run_all pipes now [] s = s
run_all pipes now (job ∷ jobs) s = run_all pipes now jobs (run_job pipes now job s)

unfoldable pub run_clip_jobs : (ℕ → PipeResult) → ℕ → State → State
run_clip_jobs pipes now s =
    let (jobs, taken) = take s.clipboard.jobs in
    run_all pipes now taken (record s { clipboard = record s.clipboard { jobs = jobs } })

unfoldable pub flush_sends : ℕ → (ℕ → List WriteResult) → State → State
flush_sends now results s = record s { sends = flush_pending_sends now results s.sends }

unfoldable pub flush_receives : ℕ → (ℕ → List ReadResult) → State → State
flush_receives now results s =
    let (kept, c) = flush_pending_receives now results s.receives s.clipboard in
    record s { receives = kept; clipboard = c }

-- A pass of the loop, as far as the clipboard goes.
unfoldable pub pass :
    (ℕ → PipeResult) → (ℕ → List WriteResult) → (ℕ → List ReadResult) → ℕ → State → State
pass pipes writes reads now s =
    flush_receives now reads (flush_sends now writes (run_clip_jobs pipes now s))

abbrev pub id_of : DataOffer → ℕ
id_of (ext id) = id
id_of (wlr id) = id

-- The `data_offer` event.
unfoldable pub data_offer : ℕ → State → State
data_offer id s = record s { offer_mimes = insert id [] s.offer_mimes }

abbrev pub or_default : Option (List String) → List String
or_default (some mimes) = mimes
or_default none = []

-- The `offer` event of an offer.
unfoldable pub offer_event : ℕ → String → State → State
offer_event id mime s = record s {
  offer_mimes = insert id (or_default (get id s.offer_mimes) ++ (mime ∷ [])) s.offer_mimes;
}

-- What `Effects::apply` does with the offers to destroy.
unfoldable pub apply_destroy : ℕ → List DataOffer → State → State
apply_destroy now [] s = s
apply_destroy now (offer ∷ os) s =
    if s.clipboard.jobs.running
    then record s {
      clipboard = record s.clipboard {
        jobs = (post now (destroy (offer ∷ os)) s.clipboard.jobs).0;
      };
    }
    else ask (map destroy_offer (offer ∷ os)) s

abbrev pub take_mimes :
    Option DataOffer → List (ℕ × List String) → List String × List (ℕ × List String)
take_mimes none m = ([], m)
take_mimes (some offer) m = (or_default (get (id_of offer) m), remove (id_of offer) m)

abbrev pub is_primary : Sel → Bool
is_primary clipboard = false
is_primary primary = true

-- A selection event, and what is left of its effects for X clients.
unfoldable pub update_selection : Sel → Option DataOffer → ℕ → State → State × Effects
update_selection sel offer now s =
    let (mimes, rest) = take_mimes offer s.offer_mimes in
    let t = record s { offer_mimes = rest } in
    if is_primary sel && s.noprimary
    then (ask (map destroy_offer (offers offer)) t, no_effects)
    else (let (c, fx) = wayland_announced sel offer mimes now s.clipboard in
        (apply_destroy now fx.destroy (record t { clipboard = c }), fx))

-- The `send` event of a source.
unfoldable pub send_event : Bool → List WriteResult → (now fd : ℕ) → Bytes → State → State
send_event nonblocking results now fd value s = record s {
  sends = queue_send nonblocking results now fd value s.sends;
}

-- The `cancelled` event of a source.
abbrev pub cancelled : State → State
cancelled s = ask (destroy_source ∷ []) s

abbrev pub refuse_all : List PendingReceive → State → State
refuse_all [] s = s
refuse_all (r ∷ rs) s = refuse_all rs (refuse r.conversion s)

-- The loop begins and ends; at its end the state is dropped, and the transfers with it.
unfoldable pub begin_draining : State → State
begin_draining s = record s {
  clipboard = record s.clipboard { jobs = set_running true s.clipboard.jobs };
}

unfoldable pub wayland_lost : State → State
wayland_lost s = record s {
  clipboard = record s.clipboard { jobs = set_running false s.clipboard.jobs };
}

unfoldable pub drop_state : State → State
drop_state s = record (refuse_all s.receives s) {
  receives = [];
  sends = record { pending = []; closed = s.sends.closed ++ s.sends.pending };
}
