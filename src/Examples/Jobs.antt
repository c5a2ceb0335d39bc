-- ===== src/Examples/Jobs.antt =====
-- Concrete runs of the job queue.
use xwlrvnc.Base.{
  ℕ, suc, ◌≤◌, ◌<◌, ◌≡◌, ◌⊎◌, true, false, Option, none, some, List, [], ◌∷◌, ◌++◌, if◌then◌else◌,
  length,
}
use xwlrvnc.Clip.Types.{Bytes, Job, clipboard, primary, publish, receive}
use xwlrvnc.Clip.Jobs.Calls.{Call, posts, run, runs, sets_running, start, takes}
use xwlrvnc.Clip.Jobs.Answers.{post_outcome, posted, refusal, run-start-settled, settled}
use xwlrvnc.Clip.Jobs.Expiry.{IsBounded, fresh, run-start-IsBounded}
use xwlrvnc.Clip.Jobs.{Jobs, max_jobs, post}

abbrev conversion : Job
conversion = receive clipboard "text/plain" 3 10 4

-- The Wayland thread starts, a conversion is posted, taken and carried out, and a second is posted.
abbrev calls : List Call
calls =
    sets_running true
    ∷ posts 10 conversion
    ∷ takes
    ∷ runs (some (b'a' ∷ []))
    ∷ posts 20 (receive primary "text/plain" 1 20 5)
    ∷ []

abbrev queued : Jobs
queued = record {
  queue = conversion ∷ publish primary none ∷ [];
  wake = 2;
  running = true;
  answers = [];
}

run-start-settled_example : settled 4 (run start calls) ≡ posted 4 calls
run-start-settled_example = run-start-settled 4 calls

post_outcome_example :
    (((post 20 conversion queued).1 ≡ true)
      × (queued.running ≡ true)
      × (length (fresh 20 queued.queue) < max_jobs)
      × ((post 20 conversion queued).0.queue ≡ fresh 20 queued.queue ++ (conversion ∷ []))
      × ((post 20 conversion queued).0.wake ≡ suc queued.wake))
    ⊎ (((post 20 conversion queued).1 ≡ false)
        × ((queued.running ≡ false) ⊎ (max_jobs ≤ length (fresh 20 queued.queue)))
        × ((post 20 conversion queued).0.queue
            ≡ (if queued.running then fresh 20 queued.queue else queued.queue))
        × ((post 20 conversion queued).0.wake ≡ queued.wake)
        × (earlier : List (ℕ × Option Bytes)) × ((post 20 conversion queued).0.answers
            ≡ earlier ++ refusal conversion))
post_outcome_example = post_outcome 20 conversion queued

run-start-IsBounded_example : IsBounded (run start calls).jobs
run-start-IsBounded_example = run-start-IsBounded calls
