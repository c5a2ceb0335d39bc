-- ===== src/Wayland/DataControl/Loop/Passes.antt =====
-- What a pass of the loop leaves behind, after any sequence of events.
use xwlrvnc.Wayland.DataControl.Loop.{
  PipeResult, State, apply_destroy, begin_draining, data_offer, drop_state, flush_receives,
  flush_sends, offer_event, run_clip_jobs, send_event, take_mimes, update_selection, wayland_lost,
}
use xwlrvnc.Base.{ℕ, ◌≡◌, refl, sym, subst, Option, List, [], ◌∷◌, arith, rest}
use xwlrvnc.Wayland.DataControl.Loop.Deadlines.{
  IsWithin, flush_pending_receives-IsReading, run_all-IsWithin,
}
use xwlrvnc.Clip.Types.{DataOffer, Sel, destroy}
use xwlrvnc.Clip.Jobs.{take}
use xwlrvnc.Clip.State.{value}
use xwlrvnc.Clip.Transitions.{wayland_announced}
use xwlrvnc.Wayland.DataControl.Loop.Calls.{
  Event, arrives, begins, calls, cancels, drains, drops, flushes_receives, flushes_sends, loses,
  offers_id, offers_mime, runs_jobs, selects, sends, step,
}
use xwlrvnc.Wayland.DataControl.Receives.{ReadResult}

run_clip_jobs-IsWithin :
    (pipes : ℕ → PipeResult) (now : ℕ) (s : State)
    → IsWithin s.receives
    → IsWithin (run_clip_jobs pipes now s).receives
unfolding run_clip_jobs take
run_clip_jobs-IsWithin pipes now s v = run_all-IsWithin pipes now s.clipboard.jobs.queue _ v

flush_receives-IsWithin :
    (now : ℕ) (results : ℕ → List ReadResult) (s : State)
    → IsWithin s.receives
    → IsWithin (flush_receives now results s).receives
unfolding flush_receives
flush_receives-IsWithin now results s v =
    let (a, b, le, q) = flush_pending_receives-IsReading now results s.receives s.clipboard v.all in
    record { few = omega (arith, v.few); all = a }

apply_destroy-receives :
    (now : ℕ) (os : List DataOffer) (s : State) → (apply_destroy now os s).receives ≡ s.receives
unfolding apply_destroy
apply_destroy-receives now [] s = refl
apply_destroy-receives now (o ∷ os) s = ground arith

update_selection-receives :
    (sel : Sel) (offer : Option DataOffer) (now : ℕ) (s : State)
    → (update_selection sel offer now s).0.receives ≡ s.receives
unfolding update_selection
update_selection-receives sel offer now s =
    let (mimes, rest) = take_mimes offer s.offer_mimes in
    let t = record s { offer_mimes = rest } in
    let (c, fx) = wayland_announced sel offer mimes now s.clipboard in
    ground (arith, apply_destroy-receives now fx.destroy (record t { clipboard = c }))

pub step-IsWithin : (s : State) (e : Event) → IsWithin s.receives → IsWithin (step s e).receives
unfolding step data_offer offer_event send_event flush_sends begin_draining wayland_lost drop_state
step-IsWithin s (calls call) v = v
step-IsWithin s drains v = v
step-IsWithin s (arrives a) v = v
step-IsWithin s (offers_id id) v = v
step-IsWithin s (offers_mime id mime) v = v
step-IsWithin s (selects sel offer now) v =
    subst IsWithin (sym (update_selection-receives sel offer now s)) v
step-IsWithin s (sends nonblocking results now fd value) v = v
step-IsWithin s cancels v = v
step-IsWithin s (runs_jobs pipes now) v = run_clip_jobs-IsWithin pipes now s v
step-IsWithin s (flushes_sends now results) v = v
step-IsWithin s (flushes_receives now results) v = flush_receives-IsWithin now results s v
step-IsWithin s begins v = v
step-IsWithin s loses v = v
step-IsWithin s drops v = record { few = omega arith; all = tt }
