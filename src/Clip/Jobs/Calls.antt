-- ===== src/Clip/Jobs/Calls.antt =====
-- Any sequence of calls by the X threads and the Wayland thread, with the jobs that the latter has
-- taken out and has yet to run.
use xwlrvnc.Base.{ℕ, Bool, List, [], ◌∷◌, ◌++◌, Option}
use xwlrvnc.Clip.Types.{Bytes, Job, receive}
use xwlrvnc.Clip.Jobs.{Jobs, default, finish, drop_job, post, sweep, take, set_running, drain_wake}

pub record World : Type 0 where
  pub jobs : Jobs
  pub taken : List Job

abbrev pub start : World
start = record { jobs = default; taken = [] }

-- `runs` carries out the next taken job, a conversion with the given outcome; `abandons` drops it.
pub data Call : Type 0 where
  posts : ℕ → Job → Call
  sweeps : ℕ → Call
  sets_running : Bool → Call
  drains_wake takes abandons : Call
  runs : Option Bytes → Call

abbrev pub run_job : Job → Option Bytes → Jobs → Jobs
run_job (receive sel mime generation since conversion) value q = finish q conversion value
run_job _ value q = q

run_next : List Job → Option Bytes → World → World
run_next [] value w = w
run_next (job ∷ jobs) value w = record { jobs = run_job job value w.jobs; taken = jobs }

abandon_next : List Job → World → World
abandon_next [] w = w
abandon_next (job ∷ jobs) w = record { jobs = drop_job job w.jobs; taken = jobs }

unfoldable pub step : World → Call → World
unfolding run_next abandon_next
step w (posts now job) = record w { jobs = (post now job w.jobs).0 }
step w (sweeps now) = record w { jobs = sweep now w.jobs }
step w (sets_running b) = record w { jobs = set_running b w.jobs }
step w drains_wake = record w { jobs = drain_wake w.jobs }
step w takes = record { jobs = (take w.jobs).0; taken = w.taken ++ (take w.jobs).1 }
step w abandons = abandon_next w.taken w
step w (runs value) = run_next w.taken value w

unfoldable pub run : World → List Call → World
run w [] = w
run w (call ∷ calls) = run (step w call) calls
