-- ===== src/Clip/Jobs.antt =====
-- bridge/clipjobs.rs: the queue of clipboard work for the Wayland thread. `Instant::now()` is the
-- argument `now`, in milliseconds. The closure of a pending conversion is its number, and calling it
-- adds the number and what it was called with to `answers`. Each method is one step, for all of it that
-- reads or writes the queue stands under the queue's lock; `wake` counts the writes to the eventfd.
pub mod Expiry
pub mod Answers
pub mod Calls
use xwlrvnc.Base.{
  ℕ, suc, ◌+◌, ◌-◌, Bool, true, false, not, leb, if◌then◌else◌, List, [], ◌∷◌, ◌++◌, Option, none,
  some, length, retain,
}
use xwlrvnc.Clip.Types.{Bytes, Job, publish, receive, destroy}

-- 30 s
abbrev pub queue_timeout : ℕ
queue_timeout = 30000

abbrev pub max_jobs : ℕ
max_jobs = 64

pub record Jobs : Type 0 where
  pub queue : List Job
  pub wake : ℕ
  pub running : Bool
  pub answers : List (ℕ × Option Bytes)

unfoldable pub default : Jobs
default = record { queue = []; wake = 0; running = false; answers = [] }

-- `PendingConversion::finish`.
unfoldable pub finish : Jobs → ℕ → Option Bytes → Jobs
finish q conversion value = record q { answers = q.answers ++ ((conversion, value) ∷ []) }

-- Dropping a job: a conversion that was not run is refused.
abbrev pub drop_job : Job → Jobs → Jobs
drop_job (receive sel mime generation since conversion) q = record q {
  answers = q.answers ++ ((conversion, none) ∷ []);
}
drop_job _ q = q

abbrev pub drop_all : List Job → Jobs → Jobs
drop_all [] q = q
drop_all (job ∷ jobs) q = drop_all jobs (drop_job job q)

-- `duration_since` is 0 where `since` is later than `now`, as `-` on ℕ is.
abbrev pub is_expired : ℕ → Job → Bool
is_expired now (receive sel mime generation since conversion) = leb queue_timeout (now - since)
is_expired now _ = false

-- What is kept, and what is taken out.
unfoldable pub drain_expired : ℕ → List Job → List Job × List Job
drain_expired now [] = ([], [])
drain_expired now (job ∷ jobs) =
    let (kept, expired) = drain_expired now jobs in
    if is_expired now job then (kept, job ∷ expired) else (job ∷ kept, expired)

unfoldable pub post : ℕ → Job → Jobs → Jobs × Bool
post now job q =
    let (kept, stale) = drain_expired now q.queue in
    if not q.running
    then (drop_job job q, false)
    else if leb max_jobs (length kept)
    then (drop_job job (drop_all stale (record q { queue = kept })), false)
    else (
      let r = drop_all stale (record q { queue = kept ++ (job ∷ []) }) in
          record r { wake = suc r.wake },
      true,
    )

unfoldable pub sweep : ℕ → Jobs → Jobs
sweep now q =
    let (kept, stale) = drain_expired now q.queue in drop_all stale (record q { queue = kept })

unfoldable pub drain_wake : Jobs → Jobs
drain_wake q = record q { wake = 0 }

-- What was posted goes to the caller, who runs or drops it.
unfoldable pub take : Jobs → Jobs × List Job
take q = (record q { queue = [] }, q.queue)

unfoldable pub set_running : Bool → Jobs → Jobs
set_running true q = record q { running = true }
set_running false q = drop_all q.queue (record q { running = false; queue = [] })
