-- ===== src/Examples/Dynres.antt =====
-- Concrete resolution changes.
use xwlrvnc.Base.{◌≡◌, refl, ◌⊎◌, true, false, none, some, List, [], ◌∷◌, if◌then◌else◌, leb}
use xwlrvnc.Dynres.{
  DynRes, Turn, blocked, busy, collect, complete, default, enter, enters, ok, parked, refused, run,
  take, takes, timeout,
}
use xwlrvnc.Dynres.Handover.{IsExclusive, at_most_one_request, entry_loses_outcome}

abbrev idle : DynRes
idle = record {
  next_id = 4;
  queued = none;
  in_flight = none;
  done = none;
  wake = 0;
  available = true;
}

-- The request 4 is being carried out.
abbrev flying : DynRes
flying = record idle { in_flight = some 4 }

abbrev turns : List Turn
turns = enters 7 1280 800 10 5010 ∷ takes ∷ []

at_most_one_request_example :
    let d = run default turns in
    let (e, entry) = enter 7 640 480 20 5020 d in
    IsExclusive d
    × (((busy d ≡ false)
          × (entry ≡ parked e.next_id)
          × (e.in_flight ≡ none)
          × ((take e).1 ≡ some (record { id = e.next_id; wl_name = 7; width = 640; height = 480 })))
        ⊎ ((busy d ≡ true)
            × (e ≡ d)
            × ((entry ≡ blocked)
                ⊎ (entry ≡ refused "another resolution change is still in progress"))))
at_most_one_request_example = at_most_one_request turns 7 640 480 20 5020

entry_loses_outcome_example :
    let e = run (enter 7 640 480 30 5030 (complete 4 ok flying)).0 (takes ∷ []) in
    (collect 4 5010 5010 e).1 ≡ (if leb 5010 5010 then some timeout else none)
unfolding complete
entry_loses_outcome_example =
    entry_loses_outcome flying 4 ok 7 640 480 30 5030 (takes ∷ []) 5010 5010 (refl) (tt, tt)
