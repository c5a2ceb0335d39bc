-- ===== src/Wayland/DataControl/Loop/Settled.antt =====
-- Every conversion that is posted waits in the queue, is being read, or has been answered, once.
use Prim.Native.String.{String}
use xwlrvnc.Base.{
  ℕ, suc, ◌+◌, ◌≡◌, refl, inl, inr, Bool, true, false, Option, none, some, List, [], ◌∷◌, ◌++◌,
  arith, Option-cases, if◌then◌else◌, ◌==◌, rest,
}
use xwlrvnc.Clip.Types.{DataOffer, Job, Sel, destroy, publish, receive}
use xwlrvnc.Clip.Jobs.{default, drain_wake, finish, take}
use xwlrvnc.Clip.Jobs.Answers.{
  answered-append, post-settled, set_running-settled, waiting, waiting-cons,
}
use xwlrvnc.Clip.State.{Clipboard, default_clipboard, offer_at, set_publishable, value}
use xwlrvnc.Clip.Transitions.{wayland_announced}
use xwlrvnc.Wayland.DataControl.Loop.Calls.{
  Event, arrives, begins, calls, cancels, drains, drops, flushes_receives, flushes_sends, loses,
  offers_id, offers_mime, run, runs_jobs, selects, sends, step,
}
use xwlrvnc.Wayland.DataControl.Loop.Held.{held, wayland_announced-held, x_posted, x_step-held}
use xwlrvnc.Wayland.DataControl.Loop.{
  PipeResult, State, apply_destroy, ask, begin_draining, blocking, data_offer, drop_state,
  flush_receives, flush_sends, new, no_pipe, offer_event, parked, ready, refuse, refuse_all,
  run_all, run_clip_jobs, run_job, send_event, start_from, start_on_pipe, start_receive, take_mimes,
  update_selection, wayland_lost,
}
use xwlrvnc.Wayland.DataControl.Receives.{
  PendingReceive, ReadEnd, ReadResult, answer, finish_receive, flush_pending_receives, pump,
}
use xwlrvnc.Wayland.DataControl.Receives.Budgets.{pump_frame}
use xwlrvnc.Wayland.DataControl.Device.{
  DataDevice, Devices, clipboard_seat_found, ext_found, publisher, receive_offer, try_init_device,
  wlr_found,
}
use xwlrvnc.Wayland.DataControl.Device.Preferred.{
  Arrival, arrive, ext_arrives, seat_arrives, wlr_arrives,
}

abbrev pub reading : ℕ → List PendingReceive → ℕ
reading k [] = 0
reading k (r ∷ rs) = if r.conversion == k then suc (reading k rs) else reading k rs

reading-append :
    (k : ℕ) (xs ys : List PendingReceive) → reading k (xs ++ ys) ≡ reading k xs + reading k ys
reading-append k [] ys = omega arith
reading-append k (r ∷ xs) ys = ground (arith, reading-append k xs ys)

-- Where the conversion `k` is.
abbrev pub settled : ℕ → State → ℕ
settled k s = held k s.clipboard + reading k s.receives

refuse-settled :
    (k conversion : ℕ) (s : State)
    → settled k (refuse conversion s) ≡ settled k s + (if conversion == k then 1 else 0)
unfolding refuse finish
refuse-settled k conversion s =
    ground (arith, answered-append k s.clipboard.jobs.answers ((conversion, none) ∷ []))

start_on_pipe-settled :
    (pipe : PipeResult) (k now : ℕ) (sel : Sel) (mime : String) (offer : DataOffer)
    (since conversion : ℕ) (s : State)
    → settled k (start_on_pipe pipe now sel mime offer since conversion s)
      ≡ settled k s + (if conversion == k then 1 else 0)
unfolding start_on_pipe
start_on_pipe-settled no_pipe k now sel mime offer since conversion s =
    refuse-settled k conversion s
start_on_pipe-settled blocking k now sel mime offer since conversion s =
    refuse-settled k conversion (ask (receive_offer offer mime ∷ []) s)
start_on_pipe-settled (ready fd) k now sel mime offer since conversion s =
    ground (arith, reading-append k s.receives (parked now fd sel mime offer since conversion ∷ []))

start_from-settled :
    (offer : Option DataOffer) (pipe : PipeResult) (k now : ℕ) (sel : Sel) (mime : String)
    (since conversion : ℕ) (s : State)
    → settled k (start_from offer pipe now sel mime since conversion s)
      ≡ settled k s + (if conversion == k then 1 else 0)
unfolding start_from
start_from-settled none pipe k now sel mime since conversion s = refuse-settled k conversion s
start_from-settled (some offer) pipe k now sel mime since conversion s = ground (
  arith,
  refuse-settled k conversion s,
  start_on_pipe-settled pipe k now sel mime offer since conversion s,
)

run_job-settled :
    (pipes : ℕ → PipeResult) (k now : ℕ) (job : Job) (s : State)
    → settled k (run_job pipes now job s) ≡ settled k s + waiting k (job ∷ [])
unfolding run_job start_receive
run_job-settled pipes k now (publish sel value) s = omega arith
run_job-settled pipes k now (receive sel mime g since conversion) s =
    start_from-settled (offer_at sel g s.clipboard) (pipes conversion) k now sel mime since
      conversion s
run_job-settled pipes k now (destroy os) s = omega arith

run_all-settled :
    (pipes : ℕ → PipeResult) (k now : ℕ) (jobs : List Job) (s : State)
    → settled k (run_all pipes now jobs s) ≡ settled k s + waiting k jobs
unfolding run_all
run_all-settled pipes k now [] s = omega arith
run_all-settled pipes k now (job ∷ jobs) s = omega (
  arith,
  run_job-settled pipes k now job s,
  run_all-settled pipes k now jobs (run_job pipes now job s),
  waiting-cons k job jobs,
)

pub run_clip_jobs-settled :
    (pipes : ℕ → PipeResult) (k now : ℕ) (s : State)
    → settled k (run_clip_jobs pipes now s) ≡ settled k s
unfolding run_clip_jobs take
run_clip_jobs-settled pipes k now s =
    let (jobs, taken) = take s.clipboard.jobs in
    omega (
      arith,
      run_all-settled pipes k now taken
          (record s { clipboard = record s.clipboard { jobs = jobs } }),
    )

finish_receive-held :
    (k : ℕ) (end : ReadEnd) (r : PendingReceive) (c : Clipboard)
    → held k (finish_receive end r c) ≡ held k c + (if r.conversion == k then 1 else 0)
unfolding finish_receive finish
finish_receive-held k end r c =
    ground (arith, answered-append k c.jobs.answers ((r.conversion, answer end r c) ∷ []))

pub flush_pending_receives-settled :
    (k now : ℕ) (results : ℕ → List ReadResult) (rs : List PendingReceive) (c : Clipboard)
    → held k (flush_pending_receives now results rs c).1
        + reading k (flush_pending_receives now results rs c).0
      ≡ held k c + reading k rs
unfolding flush_pending_receives
flush_pending_receives-settled k now results [] c = omega arith
flush_pending_receives-settled k now results (r ∷ rs) c =
    let t = (pump now (results r.fd) r).0 in
    elim (Option-cases (pump now (results r.fd) r).1) [
      | inl on ↦ ground (
        arith,
        flush_pending_receives-settled k now results rs c,
        pump_frame now (results r.fd) r,
      )
      | inr (end, over) ↦ ground (
        arith,
        finish_receive-held k end t c,
        flush_pending_receives-settled k now results rs (finish_receive end t c),
        pump_frame now (results r.fd) r,
      )
    ]

refuse_all-held :
    (k : ℕ) (rs : List PendingReceive) (s : State)
    → held k (refuse_all rs s).clipboard ≡ held k s.clipboard + reading k rs
unfolding refuse finish
refuse_all-held k [] s = omega arith
refuse_all-held k (r ∷ rs) s = ground (
  arith,
  answered-append k s.clipboard.jobs.answers ((r.conversion, none) ∷ []),
  refuse_all-held k rs (refuse r.conversion s),
)

apply_destroy-settled :
    (k now : ℕ) (os : List DataOffer) (s : State) → settled k (apply_destroy now os s) ≡ settled k s
unfolding apply_destroy
apply_destroy-settled k now [] s = refl
apply_destroy-settled k now (o ∷ os) s =
    ground (arith, post-settled k now (destroy (o ∷ os)) s.clipboard.jobs)

update_selection-settled :
    (k : ℕ) (sel : Sel) (offer : Option DataOffer) (now : ℕ) (s : State)
    → settled k (update_selection sel offer now s).0 ≡ settled k s
unfolding update_selection
update_selection-settled k sel offer now s =
    let (mimes, rest) = take_mimes offer s.offer_mimes in
    let t = record s { offer_mimes = rest } in
    let (c, fx) = wayland_announced sel offer mimes now s.clipboard in
    ground (
      arith,
      wayland_announced-held k sel offer mimes now s.clipboard,
      apply_destroy-settled k now fx.destroy (record t { clipboard = c }),
    )

try_init_device-held :
    (k : ℕ) (device : Option DataDevice) (seat m : Option ℕ) (s : Devices) (c : Clipboard)
    → s.device ≡ device
    → s.clipboard_seat ≡ seat
    → s.wlr_manager ≡ m
    → held k (try_init_device s c).1 ≡ held k c
unfolding try_init_device publisher set_publishable
try_init_device-held k (some DataDevice.ext) seat m s c d e f = ground arith
try_init_device-held k none none m s c d e f = ground arith
try_init_device-held k none (some seat) none s c d e f = ground arith
try_init_device-held k none (some seat) (some m) s c d e f = ground arith
try_init_device-held k (some (DataDevice.wlr v)) none m s c d e f = ground arith
try_init_device-held k (some (DataDevice.wlr v)) (some seat) m s c d e f = ground arith

arrive-held :
    (k : ℕ) (a : Arrival) (s : Devices) (c : Clipboard) → held k (arrive (s, c) a).1 ≡ held k c
unfolding ext_found wlr_found clipboard_seat_found
arrive-held k ext_arrives s c = try_init_device-held k s.device _ _ _ c refl refl refl
arrive-held k (wlr_arrives v) s c = try_init_device-held k s.device _ _ _ c refl refl refl
arrive-held k (seat_arrives seat) s c = try_init_device-held k s.device _ _ _ c refl refl refl

-- How often the event posts the conversion `k`.
abbrev pub event_posted : ℕ → Event → ℕ
event_posted k (calls call) = x_posted k call
event_posted k e = 0

abbrev pub posted : ℕ → List Event → ℕ
posted k [] = 0
posted k (e ∷ es) = event_posted k e + posted k es

step-settled :
    (k : ℕ) (s : State) (e : Event) → settled k (step s e) ≡ settled k s + event_posted k e
unfolding step drain_wake data_offer offer_event send_event flush_sends flush_receives
    begin_draining wayland_lost drop_state
step-settled k s (calls call) = omega (arith, x_step-held k call s.clipboard)
step-settled k s drains = omega arith
step-settled k s (arrives a) = omega (arith, arrive-held k a s.devices s.clipboard)
step-settled k s (offers_id id) = omega arith
step-settled k s (offers_mime id mime) = omega arith
step-settled k s (selects sel offer now) = omega (arith, update_selection-settled k sel offer now s)
step-settled k s (sends nonblocking results now fd value) = omega arith
step-settled k s cancels = omega arith
step-settled k s (runs_jobs pipes now) = omega (arith, run_clip_jobs-settled pipes k now s)
step-settled k s (flushes_sends now results) = omega arith
step-settled k s (flushes_receives now results) =
    omega (arith, flush_pending_receives-settled k now results s.receives s.clipboard)
step-settled k s begins = omega (arith, set_running-settled k true s.clipboard.jobs)
step-settled k s loses = omega (arith, set_running-settled k false s.clipboard.jobs)
step-settled k s drops = omega (arith, refuse_all-held k s.receives s)

run-settled_from :
    (k : ℕ) (s : State) (es : List Event) → settled k (run s es) ≡ settled k s + posted k es
unfolding run
run-settled_from k s [] = omega arith
run-settled_from k s (e ∷ es) = omega (arith, run-settled_from k (step s e) es, step-settled k s e)

-- Whatever the X threads call, the compositor sends, the pipes answer and the loop does, from the start
-- on: a conversion is posted as often as it waits in the queue, is being read from its pipe, or has been
-- answered. So one that is posted once is answered at most once, none is lost, and none is answered that
-- was not posted.
pub run-settled :
    (noprimary : Bool) (k : ℕ) (es : List Event) → settled k (run (new noprimary) es) ≡ posted k es
unfolding new default_clipboard default
run-settled noprimary k es = omega (arith, run-settled_from k (new noprimary) es)
