-- ===== src/Dynres/Handover.antt =====
-- What a request comes to: one at a time, its own outcome, and the outcome that a second client loses.
use xwlrvnc.Dynres.{
  refused, blocked, Outcome, DynRes, default, busy, parked, enter, outcome_of, timeout, collect,
  take, complete, drain_wake, Turn, enters, collects, takes, drains, completes, step, run,
}
use xwlrvnc.Base.{
  ℕ, ◌≡◌, ◌≢◌, ◌⊎◌, inl, refl, true, false, if◌then◌else◌, leb, List, [], ◌∷◌, none, some, arith,
  All,
}

-- Never is a request parked while another is being carried out.
abbrev pub IsExclusive : DynRes → Type 0
IsExclusive d = (d.queued ≡ none) ⊎ (d.in_flight ≡ none)

step-IsExclusive : (d : DynRes) (t : Turn) → IsExclusive d → IsExclusive (step d t)
unfolding step enter collect take complete drain_wake
step-IsExclusive d (enters wl_name width height now deadline) h = ground arith
step-IsExclusive d (collects id now deadline) h = ground arith
step-IsExclusive d takes h = ground arith
step-IsExclusive d drains h = ground arith
step-IsExclusive d (completes id result) h = ground arith

run-IsExclusive : (d : DynRes) (ts : List Turn) → IsExclusive d → IsExclusive (run d ts)
unfolding run
run-IsExclusive d [] h = h
run-IsExclusive d (t ∷ ts) h = run-IsExclusive (step d t) ts (step-IsExclusive d t h)

-- Whatever turns the threads take, no request is parked while another is in flight, and while one is either, a second client
-- is kept waiting or refused, and changes nothing; otherwise nothing is in flight and its own request is parked as it
-- was asked, under the id it is told, for the Wayland thread to take next.
pub at_most_one_request :
    (ts : List Turn) (wl_name width height now deadline : ℕ)
    → let d = run default ts in
      let (e, entry) = enter wl_name width height now deadline d in
      IsExclusive d
      × (((busy d ≡ false)
            × (entry ≡ parked e.next_id)
            × (e.in_flight ≡ none)
            × ((take e).1
                ≡ some
                    (record { id = e.next_id; wl_name = wl_name; width = width; height = height })))
          ⊎ ((busy d ≡ true)
              × (e ≡ d)
              × ((entry ≡ blocked)
                  ⊎ (entry ≡ refused "another resolution change is still in progress"))))
unfolding enter take
at_most_one_request ts wl_name width height now deadline =
    (run-IsExclusive default ts (unfold default in inl refl), ground arith)

-- A request that is parked while no other is parked or in flight, then taken by the Wayland thread and completed, with nothing in between, is taken as it was
-- asked, is no longer in flight, and gives its client the outcome, at whatever time the client looks.
pub handover_lem :
    (d : DynRes) (wl_name width height now deadline later : ℕ) (result : Outcome)
    → busy d ≡ false
    → let (parked_state, entry) = enter wl_name width height now deadline d in
      let id = parked_state.next_id in
      let (taken, request) = take parked_state in
      let completed = complete id result taken in
      let (after, seen) = collect id later deadline completed in
      (entry ≡ parked id)
      × (request ≡ some (record { id = id; wl_name = wl_name; width = width; height = height }))
      × (seen ≡ some result)
      × (busy after ≡ false)
      × (after.done ≡ none)
unfolding enter take complete collect
handover_lem d wl_name width height now deadline later result h = ground arith

-- The outcome of `id` is not there.
abbrev pub Lacks : ℕ → DynRes → Type 0
Lacks id d = outcome_of id d.done ≡ none

abbrev pub Spares : ℕ → Turn → Type 0
Spares id (completes j result) = j ≢ id
Spares id _ = Unit

step-Lacks : (id : ℕ) (d : DynRes) (t : Turn) → Spares id t → Lacks id d → Lacks id (step d t)
unfolding step enter collect take complete drain_wake
step-Lacks id d (enters wl_name width height now deadline) s h = ground arith
step-Lacks id d (collects j now deadline) s h = ground arith
step-Lacks id d takes s h = ground arith
step-Lacks id d drains s h = ground arith
step-Lacks id d (completes j result) s h = ground arith

run-Lacks :
    (id : ℕ) (d : DynRes) (ts : List Turn) → All (Spares id) ts → Lacks id d → Lacks id (run d ts)
unfolding run
run-Lacks id d [] s h = h
run-Lacks id d (t ∷ ts) s h = run-Lacks id (step d t) ts s.1 (step-Lacks id d t s.0 h)

entry_discards :
    (id wl_name width height now deadline : ℕ) (d : DynRes)
    → busy d ≡ false
    → Lacks id (enter wl_name width height now deadline d).0
unfolding enter
entry_discards id wl_name width height now deadline d h = ground arith

-- An outcome is lost if a second client enters before the first has looked: after the Wayland thread completed the
-- request `id`, and with nothing else parked or in flight, the entry of another client discards the outcome. From
-- then on, whatever turns follow, unless the Wayland thread completes `id` once more, the first client waits, and
-- at its deadline is told that the compositor did not answer in time, whichever the outcome was.
pub entry_loses_outcome :
    (d : DynRes) (id : ℕ) (result : Outcome) (wl_name width height now deadline : ℕ)
    (ts : List Turn) (later due : ℕ)
    → busy (complete id result d) ≡ false
    → All (Spares id) ts
    → let e = run (enter wl_name width height now deadline (complete id result d)).0 ts in
      (collect id later due e).1 ≡ (if leb due later then some timeout else none)
unfolding collect
entry_loses_outcome d id result wl_name width height now deadline ts later due free spared =
    let gone = entry_discards id wl_name width height now deadline (complete id result d) free in
    let lacks =
      run-Lacks id (enter wl_name width height now deadline (complete id result d)).0 ts spared
        gone in
    ground arith
