-- ===== src/Wayland/DataControl/Loop/Deadlines.antt =====
-- Until when the Wayland thread keeps an X client waiting.
use Prim.Native.String.{String}
use xwlrvnc.Base.{
  ℕ, ◌-◌, ◌≤◌, ◌<◌, ◌≡◌, refl, inl, inr, Option, none, some, List, [], ◌∷◌, arith, Bool-cases,
  Option-cases, leb, All, All-append, length, length-append,
}
use xwlrvnc.Clip.Types.{DataOffer, Job, Sel, destroy, publish, receive}
use xwlrvnc.Clip.Jobs.{finish}
use xwlrvnc.Clip.State.{Clipboard, offer_at, value}
use xwlrvnc.Wayland.DataControl.Loop.{
  PipeResult, State, blocking, no_pipe, parked, ready, refuse, run_all, run_job, start_from,
  start_on_pipe, start_receive,
}
use xwlrvnc.Wayland.DataControl.Receives.{
  PendingReceive, ReadEnd, ReadResult, finish_receive, flush_pending_receives, max_pending_receives,
  pump, receive_idle_timeout, receive_timeout,
}
use xwlrvnc.Wayland.DataControl.Receives.Budgets.{pump_frame, pump_goes_on}

-- A transfer that is being read has the budgets of the source, and has not reached its limit.
abbrev pub IsReading : PendingReceive → Type 0
IsReading r = (r.total ≡ receive_timeout) × (r.idle ≡ receive_idle_timeout) × (length r.buf ≤ r.max)

pub record IsWithin (rs : List PendingReceive) : Type 0 where
  pub few : length rs ≤ max_pending_receives
  pub all : All IsReading rs

start_on_pipe-IsWithin :
    (pipe : PipeResult) (now : ℕ) (sel : Sel) (mime : String) (offer : DataOffer)
    (since conversion : ℕ) (s : State)
    → length s.receives < max_pending_receives
    → IsWithin s.receives
    → IsWithin (start_on_pipe pipe now sel mime offer since conversion s).receives
unfolding start_on_pipe refuse
start_on_pipe-IsWithin no_pipe now sel mime offer since conversion s h v = v
start_on_pipe-IsWithin blocking now sel mime offer since conversion s h v = v
start_on_pipe-IsWithin (ready fd) now sel mime offer since conversion s h v =
    let r = parked now fd sel mime offer since conversion in
    record {
      few = omega (arith, length-append s.receives (r ∷ []));
      all = All-append IsReading s.receives (r ∷ []) v.all ((refl, refl, omega arith), tt);
    }

start_from-IsWithin :
    (offer : Option DataOffer) (pipe : PipeResult) (now : ℕ) (sel : Sel) (mime : String)
    (since conversion : ℕ) (s : State)
    → IsWithin s.receives
    → IsWithin (start_from offer pipe now sel mime since conversion s).receives
unfolding start_from refuse
start_from-IsWithin none pipe now sel mime since conversion s v = v
start_from-IsWithin (some offer) pipe now sel mime since conversion s v =
    elim (Bool-cases (leb max_pending_receives (length s.receives))) [
      | inl full ↦ rw full v
      | inr room ↦
          rw room
            (start_on_pipe-IsWithin pipe now sel mime offer since conversion s (ground arith) v)
    ]

run_job-IsWithin :
    (pipes : ℕ → PipeResult) (now : ℕ) (job : Job) (s : State)
    → IsWithin s.receives
    → IsWithin (run_job pipes now job s).receives
unfolding run_job start_receive
run_job-IsWithin pipes now (publish sel value) s v = v
run_job-IsWithin pipes now (receive sel mime g since conversion) s v =
    start_from-IsWithin (offer_at sel g s.clipboard) (pipes conversion) now sel mime since
      conversion s v
run_job-IsWithin pipes now (destroy os) s v = v

pub run_all-IsWithin :
    (pipes : ℕ → PipeResult) (now : ℕ) (jobs : List Job) (s : State)
    → IsWithin s.receives
    → IsWithin (run_all pipes now jobs s).receives
unfolding run_all
run_all-IsWithin pipes now [] s v = v
run_all-IsWithin pipes now (job ∷ jobs) s v =
    run_all-IsWithin pipes now jobs (run_job pipes now job s) (run_job-IsWithin pipes now job s v)

-- What a pass leaves a transfer that goes on.
abbrev pub IsTimely : ℕ → PendingReceive → Type 0
IsTimely now r = (now - r.since < receive_timeout) × (now - r.progress_at < receive_idle_timeout)

abbrev pub IsFlushed : ℕ → ℕ → List Job → List PendingReceive × Clipboard → Type 0
IsFlushed now n queue (rs, c) =
    All IsReading rs × All (IsTimely now) rs × (length rs ≤ n) × (c.jobs.queue ≡ queue)

module _ (now : ℕ) (results : ℕ → List ReadResult) (r : PendingReceive) (rs : List PendingReceive)
    (c : Clipboard) where
  flush_pending_receives_goes_on :
      (pump now (results r.fd) r).1 ≡ none
      → flush_pending_receives now results (r ∷ rs) c ≡ (
        (pump now (results r.fd) r).0 ∷ (flush_pending_receives now results rs c).0,
        (flush_pending_receives now results rs c).1,
      )
  unfolding flush_pending_receives
  flush_pending_receives_goes_on e = ground arith

  flush_pending_receives_ends :
      (end : ReadEnd)
      → (pump now (results r.fd) r).1 ≡ some end
      → flush_pending_receives now results (r ∷ rs) c
        ≡ flush_pending_receives now results rs (finish_receive end (pump now (results r.fd) r).0 c)
  unfolding flush_pending_receives
  flush_pending_receives_ends end e = ground arith

nil-IsFlushed :
    (now : ℕ) (results : ℕ → List ReadResult) (c : Clipboard)
    → IsFlushed now 0 c.jobs.queue (flush_pending_receives now results [] c)
unfolding flush_pending_receives
nil-IsFlushed now results c = (tt, tt, omega arith, refl)

pub flush_pending_receives-IsReading :
    (now : ℕ) (results : ℕ → List ReadResult) (rs : List PendingReceive) (c : Clipboard)
    → All IsReading rs
    → IsFlushed now (length rs) c.jobs.queue (flush_pending_receives now results rs c)
unfolding finish_receive finish
flush_pending_receives-IsReading now results [] c h = nil-IsFlushed now results c
flush_pending_receives-IsReading now results (r ∷ rs) c (h, hs) =
    let t = pump now (results r.fd) r in
    elim (Option-cases t.1) [
      | inl on ↦
          let (a, b, le, q) = flush_pending_receives-IsReading now results rs c hs in
          let p = pump_goes_on now (results r.fd) r h.2 on in
          let f = pump_frame now (results r.fd) r in
          rw (flush_pending_receives_goes_on now results r rs c on)
            ((ground arith, a), (ground arith, b), omega arith, q)
      | inr (end, over) ↦
          let (a, b, le, q) =
            flush_pending_receives-IsReading now results rs (finish_receive end t.0 c) hs in
          rw (flush_pending_receives_ends now results r rs c end over) (a, b, omega arith, q)
    ]
