-- ===== src/Clip/Jobs/Answers.antt =====
-- Who answers a pending conversion: from its posting on, each is waiting in the queue, taken by the
-- Wayland thread, or answered, once.
use mathlib.Core.List.{append-nil}
use xwlrvnc.Base.{
  ℕ, suc, ◌+◌, ◌≤◌, ◌≡◌, ◌⊎◌, inl, inr, refl, Bool, true, false, ◌==◌, if◌then◌else◌, List, [], ◌∷◌,
  ◌++◌, arith, Option, none, leb, Bool-cases, sym, ◌<◌, length,
}
use xwlrvnc.Clip.Types.{Bytes, Job, publish, receive, destroy}
use xwlrvnc.Clip.Jobs.{
  Jobs, default, finish, drop_all, drop_job, drain_expired, post, sweep, take, set_running,
  drain_wake, max_jobs,
}
use xwlrvnc.Clip.Jobs.Expiry.{drop_all_frame, drain_expired-retain, fresh}
use xwlrvnc.Clip.Jobs.Calls.{
  World, Call, posts, sweeps, sets_running, drains_wake, takes, abandons, runs, run_job, start,
  step, run,
}

-- How often the conversion `k` stands in a list of jobs.
abbrev pub waiting : ℕ → List Job → ℕ
waiting k [] = 0
waiting k (publish s d ∷ jobs) = waiting k jobs
waiting k (receive s m g t c ∷ jobs) = if c == k then suc (waiting k jobs) else waiting k jobs
waiting k (destroy os ∷ jobs) = waiting k jobs

abbrev pub answered : ℕ → List (ℕ × Option Bytes) → ℕ
answered k [] = 0
answered k ((c, v) ∷ more) = if c == k then suc (answered k more) else answered k more

pub waiting-append : (k : ℕ) (xs ys : List Job) → waiting k (xs ++ ys) ≡ waiting k xs + waiting k ys
waiting-append k [] ys = omega arith
waiting-append k (publish s d ∷ xs) ys = waiting-append k xs ys
waiting-append k (receive s m g t c ∷ xs) ys = ground (arith, waiting-append k xs ys)
waiting-append k (destroy os ∷ xs) ys = waiting-append k xs ys

pub answered-append :
    (k : ℕ) (xs ys : List (ℕ × Option Bytes))
    → answered k (xs ++ ys) ≡ answered k xs + answered k ys
answered-append k [] ys = omega arith
answered-append k ((c, v) ∷ xs) ys = ground (arith, answered-append k xs ys)

answered-drop_all :
    (k : ℕ) (jobs : List Job) (q : Jobs)
    → answered k (drop_all jobs q).answers ≡ answered k q.answers + waiting k jobs
answered-drop_all k [] q = omega arith
answered-drop_all k (publish s d ∷ jobs) q = answered-drop_all k jobs q
answered-drop_all k (receive s m g t c ∷ jobs) q = ground (
  arith,
  answered-drop_all k jobs (drop_job (receive s m g t c) q),
  answered-append k q.answers ((c, none) ∷ []),
)
answered-drop_all k (destroy os ∷ jobs) q = answered-drop_all k jobs q

waiting-drain_expired :
    (k now : ℕ) (jobs : List Job)
    → waiting k (drain_expired now jobs).0 + waiting k (drain_expired now jobs).1 ≡ waiting k jobs
unfolding drain_expired
waiting-drain_expired k now [] = refl
waiting-drain_expired k now (publish s d ∷ jobs) = waiting-drain_expired k now jobs
waiting-drain_expired k now (receive s m g t c ∷ jobs) =
    ground (arith, waiting-drain_expired k now jobs)
waiting-drain_expired k now (destroy os ∷ jobs) = waiting-drain_expired k now jobs

-- Where the conversion `k` is: waiting in the queue, taken, or answered.
abbrev pub settled : ℕ → World → ℕ
settled k w = waiting k w.jobs.queue + waiting k w.taken + answered k w.jobs.answers

abbrev pub posted : ℕ → List Call → ℕ
posted k [] = 0
posted k (posts now job ∷ calls) = waiting k (job ∷ []) + posted k calls
posted k (call ∷ calls) = posted k calls

pub post-settled :
    (k now : ℕ) (job : Job) (q : Jobs)
    → waiting k (post now job q).0.queue + answered k (post now job q).0.answers
      ≡ waiting k q.queue + answered k q.answers + waiting k (job ∷ [])
unfolding post
post-settled k now job q =
    let (kept, stale) = drain_expired now q.queue in
    ground (
      arith,
      drop_all_frame (job ∷ []) q,
      drop_all_frame stale (record q { queue = kept }),
      drop_all_frame (job ∷ []) (drop_all stale (record q { queue = kept })),
      drop_all_frame stale (record q { queue = kept ++ (job ∷ []) }),
      waiting-append k kept (job ∷ []),
      waiting-drain_expired k now q.queue,
      answered-drop_all k (job ∷ []) q,
      answered-drop_all k stale (record q { queue = kept }),
      answered-drop_all k (job ∷ []) (drop_all stale (record q { queue = kept })),
      answered-drop_all k stale (record q { queue = kept ++ (job ∷ []) }),
    )

pub sweep-settled :
    (k now : ℕ) (q : Jobs)
    → waiting k (sweep now q).queue + answered k (sweep now q).answers
      ≡ waiting k q.queue + answered k q.answers
unfolding sweep
sweep-settled k now q =
    let (kept, stale) = drain_expired now q.queue in
    ground (
      arith,
      drop_all_frame stale (record q { queue = kept }),
      waiting-drain_expired k now q.queue,
      answered-drop_all k stale (record q { queue = kept }),
    )

pub set_running-settled :
    (k : ℕ) (b : Bool) (q : Jobs)
    → waiting k (set_running b q).queue + answered k (set_running b q).answers
      ≡ waiting k q.queue + answered k q.answers
unfolding set_running
set_running-settled k true q = refl
set_running-settled k false q = ground (
  arith,
  drop_all_frame q.queue (record q { running = false; queue = [] }),
  answered-drop_all k q.queue (record q { running = false; queue = [] }),
)

run_job-settled :
    (k : ℕ) (job : Job) (value : Option Bytes) (q : Jobs)
    → waiting k (run_job job value q).queue + answered k (run_job job value q).answers
      ≡ waiting k q.queue + answered k q.answers + waiting k (job ∷ [])
unfolding finish
run_job-settled k (publish s d) value q = omega arith
run_job-settled k (receive s m g t c) value q =
    ground (arith, answered-append k q.answers ((c, value) ∷ []))
run_job-settled k (destroy os) value q = omega arith

pub waiting-cons :
    (k : ℕ) (job : Job) (jobs : List Job)
    → waiting k (job ∷ jobs) ≡ waiting k (job ∷ []) + waiting k jobs
waiting-cons k job jobs = waiting-append k (job ∷ []) jobs

run_next-settled :
    (k : ℕ) (value : Option Bytes) (jobs : List Job) (w : World)
    → w.taken ≡ jobs
    → settled k (step w (runs value)) ≡ settled k w
unfolding step
run_next-settled k value [] w e = ground arith
run_next-settled k value (job ∷ jobs) w e =
    ground (arith, run_job-settled k job value w.jobs, waiting-cons k job jobs)

abandon_next-settled :
    (k : ℕ) (jobs : List Job) (w : World)
    → w.taken ≡ jobs
    → settled k (step w abandons) ≡ settled k w
unfolding step
abandon_next-settled k [] w e = ground arith
abandon_next-settled k (job ∷ jobs) w e = ground (
  arith,
  answered-drop_all k (job ∷ []) w.jobs,
  drop_all_frame (job ∷ []) w.jobs,
  waiting-cons k job jobs,
)

step-settled :
    (k : ℕ) (w : World) (call : Call) → settled k (step w call) ≡ settled k w + posted k (call ∷ [])
unfolding step take drain_wake
step-settled k w (posts now job) = omega (arith, post-settled k now job w.jobs)
step-settled k w (sweeps now) = omega (arith, sweep-settled k now w.jobs)
step-settled k w (sets_running b) = omega (arith, set_running-settled k b w.jobs)
step-settled k w drains_wake = omega arith
step-settled k w takes = omega (arith, waiting-append k w.taken w.jobs.queue)
step-settled k w abandons = omega (arith, abandon_next-settled k w.taken w refl)
step-settled k w (runs value) = omega (arith, run_next-settled k value w.taken w refl)

posted-cons :
    (k : ℕ) (call : Call) (calls : List Call)
    → posted k (call ∷ calls) ≡ posted k (call ∷ []) + posted k calls
posted-cons k (posts now job) calls = omega arith
posted-cons k _ calls = omega arith

run-settled :
    (k : ℕ) (w : World) (calls : List Call) → settled k (run w calls) ≡ settled k w + posted k calls
unfolding run
run-settled k w [] = omega arith
run-settled k w (call ∷ calls) =
    omega
      (arith, run-settled k (step w call) calls, step-settled k w call, posted-cons k call calls)

-- From an empty queue on, whatever the threads do: a conversion is posted as often as it waits in the
-- queue, is held by the Wayland thread or has been answered. So one that is posted once is answered at
-- most once, and is answered as soon as it is neither queued nor held; none is lost.
pub run-start-settled : (k : ℕ) (calls : List Call) → settled k (run start calls) ≡ posted k calls
unfolding default
run-start-settled k calls = omega (arith, run-settled k start calls)

-- What dropping a job tells the client that waits on it.
abbrev pub refusal : Job → List (ℕ × Option Bytes)
refusal (receive s m g t c) = (c, none) ∷ []
refusal _ = []

answers-drop_job : (job : Job) (q : Jobs) → (drop_job job q).answers ≡ q.answers ++ refusal job
answers-drop_job (publish s d) q = sym (append-nil q.answers)
answers-drop_job (receive s m g t c) q = refl
answers-drop_job (destroy os) q = sym (append-nil q.answers)

-- A job that is taken goes behind those that are not past their time, and wakes the Wayland thread. It
-- is refused exactly if no Wayland thread runs, or those not past their time make up a full queue: then
-- it does not enter the queue, nothing is woken, and the last answer given refuses its conversion.
pub post_outcome :
    (now : ℕ) (job : Job) (q : Jobs)
    → (((post now job q).1 ≡ true)
        × (q.running ≡ true)
        × (length (fresh now q.queue) < max_jobs)
        × ((post now job q).0.queue ≡ fresh now q.queue ++ (job ∷ []))
        × ((post now job q).0.wake ≡ suc q.wake))
      ⊎ (((post now job q).1 ≡ false)
          × ((q.running ≡ false) ⊎ (max_jobs ≤ length (fresh now q.queue)))
          × ((post now job q).0.queue ≡ (if q.running then fresh now q.queue else q.queue))
          × ((post now job q).0.wake ≡ q.wake)
          × (earlier : List (ℕ × Option Bytes)) × ((post now job q).0.answers
              ≡ earlier ++ refusal job))
unfolding post
post_outcome now job q =
    let (kept, stale) = drain_expired now q.queue in
    let full = drop_all stale (record q { queue = kept }) in
    let grown = record q { queue = kept ++ (job ∷ []) } in
    elim (Bool-cases q.running) [
      | inl up ↦ elim (Bool-cases (leb max_jobs (length kept))) [
        | inl over ↦ inr (
          ground arith,
          inr (ground (arith, drain_expired-retain now q.queue)),
          ground (
            arith,
            drop_all_frame (job ∷ []) full,
            drop_all_frame stale (record q { queue = kept }),
            drain_expired-retain now q.queue,
          ),
          ground (
            arith,
            drop_all_frame (job ∷ []) full,
            drop_all_frame stale (record q { queue = kept }),
          ),
          full.answers,
          ground (arith, answers-drop_job job full),
        )
        | inr under ↦ inl (
          ground arith,
          up,
          ground (arith, drain_expired-retain now q.queue),
          ground (arith, drop_all_frame stale grown, drain_expired-retain now q.queue),
          ground (arith, drop_all_frame stale grown),
        )
      ]
      | inr down ↦ inr (
        ground arith,
        inl down,
        ground (arith, drop_all_frame (job ∷ []) q),
        ground (arith, drop_all_frame (job ∷ []) q),
        q.answers,
        ground (arith, answers-drop_job job q),
      )
    ]
