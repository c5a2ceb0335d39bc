-- ===== src/Clip/Jobs/Expiry.antt =====
-- What the queue holds between two calls, and what a sweep leaves behind.
use xwlrvnc.Clip.Jobs.{
  take, finish, drain_wake, Jobs, max_jobs, default, drop_all, drop_job, is_expired, drain_expired,
  post, sweep, set_running,
}
use xwlrvnc.Base.{
  Option, ℕ, ◌≤◌, ◌≡◌, refl, Bool, true, false, not, List, [], ◌∷◌, ◌++◌, arith, length, retain,
  length-append, length-retain-le,
}
use xwlrvnc.Clip.Types.{Bytes, Job, publish, receive, destroy}
use xwlrvnc.Clip.Jobs.Calls.{
  World, Call, posts, sweeps, sets_running, drains_wake, takes, abandons, runs, start, step, run,
}

-- The loop over the queue is a partition that keeps the order.
pub drain_expired-retain :
    (now : ℕ) (jobs : List Job)
    → ((drain_expired now jobs).0 ≡ retain (λ j. not (is_expired now j)) jobs)
      × ((drain_expired now jobs).1 ≡ retain (is_expired now) jobs)
unfolding drain_expired
drain_expired-retain now [] = (refl, refl)
drain_expired-retain now (job ∷ jobs) = ground (arith, drain_expired-retain now jobs)

-- Dropping jobs answers clients, and touches nothing else.
pub drop_all_frame :
    (jobs : List Job) (q : Jobs)
    → ((drop_all jobs q).queue ≡ q.queue)
      × ((drop_all jobs q).running ≡ q.running)
      × ((drop_all jobs q).wake ≡ q.wake)
drop_all_frame [] q = (refl, refl, refl)
drop_all_frame (publish s d ∷ jobs) q = drop_all_frame jobs q
drop_all_frame (receive s m g t k ∷ jobs) q = drop_all_frame jobs (drop_job (receive s m g t k) q)
drop_all_frame (destroy os ∷ jobs) q = drop_all_frame jobs q

abbrev pub fresh : ℕ → List Job → List Job
fresh now = retain (λ j. not (is_expired now j))

-- The queue is within its limit, and empty while no Wayland thread drains it.
pub record IsBounded (q : Jobs) : Type 0 where
  pub within : length q.queue ≤ max_jobs
  pub idle : q.running ≡ false → q.queue ≡ []

pub default-IsBounded : IsBounded default
unfolding default
default-IsBounded = ground arith

pub post-IsBounded : (now : ℕ) (job : Job) (q : Jobs) → IsBounded q → IsBounded (post now job q).0
unfolding post
post-IsBounded now job q v =
    let (kept, stale) = drain_expired now q.queue in
    ground (
      arith,
      drop_all_frame (job ∷ []) q,
      drop_all_frame stale (record q { queue = kept }),
      drop_all_frame (job ∷ []) (drop_all stale (record q { queue = kept })),
      drop_all_frame stale (record q { queue = kept ++ (job ∷ []) }),
      length-append kept (job ∷ []),
      drain_expired-retain now q.queue,
      length-retain-le (λ j. not (is_expired now j)) q.queue,
    )

pub sweep-IsBounded : (now : ℕ) (q : Jobs) → IsBounded q → IsBounded (sweep now q)
unfolding sweep
sweep-IsBounded now q v = ground (
  arith,
  drain_expired-retain now q.queue,
  drop_all_frame (drain_expired now q.queue).1 (record q { queue = (drain_expired now q.queue).0 }),
  length-retain-le (λ j. not (is_expired now j)) q.queue,
)

pub set_running-IsBounded : (b : Bool) (q : Jobs) → IsBounded q → IsBounded (set_running b q)
unfolding set_running
set_running-IsBounded true q v = ground arith
set_running-IsBounded false q v =
    ground (arith, drop_all_frame q.queue (record q { running = false; queue = [] }))

run_next-queue :
    (w : World) (value : Option Bytes) (jobs : List Job)
    → w.taken ≡ jobs
    → ((step w (runs value)).jobs.queue ≡ w.jobs.queue)
      × ((step w (runs value)).jobs.running ≡ w.jobs.running)
unfolding step finish
run_next-queue w value [] e = ground arith
run_next-queue w value (publish s d ∷ jobs) e = ground arith
run_next-queue w value (receive s m g t c ∷ jobs) e = ground arith
run_next-queue w value (destroy os ∷ jobs) e = ground arith

abandon_next-queue :
    (w : World) (jobs : List Job)
    → w.taken ≡ jobs
    → ((step w abandons).jobs.queue ≡ w.jobs.queue)
      × ((step w abandons).jobs.running ≡ w.jobs.running)
unfolding step
abandon_next-queue w [] e = ground arith
abandon_next-queue w (job ∷ jobs) e = ground (arith, drop_all_frame (job ∷ []) w.jobs)

step-IsBounded : (w : World) (call : Call) → IsBounded w.jobs → IsBounded (step w call).jobs
unfolding step take drain_wake
step-IsBounded w (posts now job) v = post-IsBounded now job w.jobs v
step-IsBounded w (sweeps now) v = sweep-IsBounded now w.jobs v
step-IsBounded w (sets_running b) v = set_running-IsBounded b w.jobs v
step-IsBounded w drains_wake v = record { within = v.within; idle = v.idle }
step-IsBounded w takes v = ground arith
step-IsBounded w abandons v = ground (arith, abandon_next-queue w w.taken refl)
step-IsBounded w (runs value) v = ground (arith, run_next-queue w value w.taken refl)

run-IsBounded : (w : World) (calls : List Call) → IsBounded w.jobs → IsBounded (run w calls).jobs
unfolding run
run-IsBounded w [] v = v
run-IsBounded w (call ∷ calls) v = run-IsBounded (step w call) calls (step-IsBounded w call v)

-- From the start on, whatever the threads do, at most sixty-four jobs wait, and none while no Wayland
-- thread is there to run them.
pub run-start-IsBounded : (calls : List Call) → IsBounded (run start calls).jobs
run-start-IsBounded calls = run-IsBounded start calls default-IsBounded
