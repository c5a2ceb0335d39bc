-- ===== src/Wayland/OutputConfig/Budget/Steps.antt =====
-- Every step keeps what is said of the state in the module above.
use xwlrvnc.Wayland.OutputConfig.{
  String, Active, Head, OutputConfig, State, active_of, dynres_advance, dynres_fail, finished,
  if_managed_lem, if_working, if_working_lem, is_shown, learned,
}
use xwlrvnc.Dynres
use xwlrvnc.Base.{
  ℕ, ◌≡◌, refl, ◌∙◌, inl, inr, Bool, true, ◌&&◌, some, List, [], ◌∷◌, ◌++◌, arith, Bool-cases,
  Option-cases, if◌then◌else◌, ◌==◌, update_first,
}
use xwlrvnc.Wayland.OutputConfig.Budget.Taking.{pick_up-IsSound}
use xwlrvnc.Wayland.OutputConfig.Budget.Answers.{dynres_config_event-IsSound}
use xwlrvnc.Wayland.OutputConfig.Budget.{
  IsSound, dynres_advance-IsSound, finished-IsSound, active_of-IsHeld,
}
use xwlrvnc.Wayland.OutputConfig.Events.{
  Event, HeadEvent, collects, config_event, dynres_output_changed, dynres_output_removed, enters,
  fresh_head, has_mode, head_added, head_enabled, head_event, head_finished, head_mode, head_name,
  is_settling, manager_done, manager_finished, mode_event, on_done, on_head, on_head_event,
  on_manager_finished, on_modes, output_changed, output_removed, outputs_become, pick_up, run,
  screen_becomes, step, tick_dynres, ticks, with_config,
}
use xwlrvnc.Dynres.{DynRes, Outcome, busy, err, ok}

with_config-IsSound :
    (f : OutputConfig → OutputConfig) (s : State)
    → ((c : OutputConfig) → ((f c).active ≡ c.active) × ((f c).serial ≡ c.serial))
    → IsSound s
    → IsSound (with_config f s)
with_config-IsSound f s same i =
    if_managed_lem IsSound s.output_config s (λ c. record s { output_config = some (f c) }) i
      (λ c e.
        let (active, serial) = same c in
        elim (Option-cases c.active) [
          | inl idle ↦ ground (arith, i.frugal, i.linked, i.served)
          | inr (a, busy) ↦ ground (arith, i.frugal, i.linked, i.served)
        ])

-- A step that may end the request at hand, and leaves all else that counts.
ended-IsSound :
    (test : OutputConfig → Active → Bool) (result : Outcome)
    (b : OutputConfig → Active → OutputConfig) (s : State)
    → IsSound s
    → IsSound
        (if_working (active_of s) s (λ c a. if test c a then finished result (b c a) a s else s))
ended-IsSound test result b s i =
    if_working_lem IsSound (active_of s) s
      (λ c a. if test c a then finished result (b c a) a s else s) i
      (λ c a e. elim (Bool-cases (test c a)) [
        | inl ends ↦ rw ends (finished-IsSound result (b c a) c a s (active_of-IsHeld c a s i e))
        | inr stays ↦ rw stays i
      ])

on_head_event-IsSound :
    (proxy : ℕ) (e : HeadEvent) (s : State) → IsSound s → IsSound (on_head_event proxy e s)
unfolding on_head_event
on_head_event-IsSound proxy e s i = on e
  where
    on : (e : HeadEvent) → IsSound (on_head_event proxy e s)
    on head_finished =
        let f : OutputConfig → OutputConfig =
          λ c. record c { heads = on_head proxy head_finished c.heads } in
        ended-IsSound (λ c a. a.head == proxy) (err "the output went away") (λ c a. c)
          (with_config f s) (with_config-IsSound f s (λ c. (refl, refl)) i)
    on (head_name name) =
        with_config-IsSound (λ c. record c { heads = on_head proxy (head_name name) c.heads }) s
          (λ c. (refl, refl)) i
    on (head_enabled b) =
        with_config-IsSound (λ c. record c { heads = on_head proxy (head_enabled b) c.heads }) s
          (λ c. (refl, refl)) i
    on (head_mode mode) =
        with_config-IsSound (λ c. record c { heads = on_head proxy (head_mode mode) c.heads }) s
          (λ c. (refl, refl)) i

dynres_fail-IsSound : (reason : String) (s : State) → IsSound s → IsSound (dynres_fail reason s)
unfolding dynres_fail
dynres_fail-IsSound reason s i = ended-IsSound (λ c a. true) (err reason) (λ c a. c) s i

on_done-IsSound : (serial now : ℕ) (s : State) → IsSound s → IsSound (on_done serial now s)
unfolding on_done
on_done-IsSound serial now s i =
    if_managed_lem IsSound s.output_config s
      (λ c.
        dynres_advance now (record s { output_config = some (record c { serial = some serial }) }))
      i
      (λ c e.
        dynres_advance-IsSound now
          (record s { output_config = some (record c { serial = some serial }) }) (ground arith))

in_flight-enter :
    (wl_name width height now deadline : ℕ) (d : DynRes)
    → (Dynres.enter wl_name width height now deadline d).0.in_flight ≡ d.in_flight
unfolding Dynres.enter
in_flight-enter wl_name width height now deadline d = ground arith

in_flight-collect :
    (id now deadline : ℕ) (d : DynRes)
    → (Dynres.collect id now deadline d).0.in_flight ≡ d.in_flight
unfolding Dynres.collect
in_flight-collect id now deadline d = ground arith

step-IsSound :
    (describe : List ℕ → List Head → String) (s : State) (e : Event)
    → IsSound s
    → IsSound (step describe s e)
unfolding step tick_dynres dynres_output_changed dynres_output_removed on_manager_finished
step-IsSound describe s (ticks now) i =
    dynres_advance-IsSound now (pick_up describe now s) (pick_up-IsSound describe now s i)
step-IsSound describe s (head_added proxy) i =
    with_config-IsSound (λ c. record c { heads = c.heads ++ (fresh_head proxy ∷ []) }) s
      (λ c. (refl, refl)) i
step-IsSound describe s (manager_done serial now) i = on_done-IsSound serial now s i
step-IsSound describe s manager_finished i =
    ground (arith, dynres_fail-IsSound "the compositor withdrew the output manager" s i)
step-IsSound describe s (head_event proxy e) i = on_head_event-IsSound proxy e s i
step-IsSound describe s (mode_event proxy e) i =
    with_config-IsSound
      (λ c. record c {
        heads =
            update_first (has_mode proxy) (λ h. record h { modes = on_modes proxy e h.modes })
              c.heads;
      })
      s (λ c. (refl, refl)) i
step-IsSound describe s (config_event config answer now) i =
    dynres_config_event-IsSound config answer now s i
step-IsSound describe s (output_changed wl_name) i =
    ended-IsSound (λ c a. a.req.wl_name == wl_name && is_settling a.phase && is_shown a.req s) ok
      (λ c a. learned a.current c) s i
step-IsSound describe s (output_removed wl_name) i =
    ended-IsSound (λ c a. a.req.wl_name == wl_name) (err "the output went away") (λ c a. c) s i
step-IsSound describe s (enters wl_name width height now deadline) i = record {
  frugal = i.frugal;
  linked = in_flight-enter wl_name width height now deadline s.dynres ∙ i.linked;
  served = i.served;
}
step-IsSound describe s (collects id now deadline) i = record {
  frugal = i.frugal;
  linked = in_flight-collect id now deadline s.dynres ∙ i.linked;
  served = i.served;
}
step-IsSound describe s (outputs_become outputs) i = record {
  frugal = i.frugal;
  linked = i.linked;
  served = i.served;
}
step-IsSound describe s (screen_becomes screen) i = record {
  frugal = i.frugal;
  linked = i.linked;
  served = i.served;
}

-- A request is not tried for ever. Whatever the compositor answers and announces, and in whatever order, these hold
-- for as long as they held once: counting those that the request at hand may still need, at most six configurations were
-- sent for each request that was taken up; the request in flight at `dynres` is the one at hand; and a request at hand has
-- a serial to be sent with, unless none of its configurations was sent yet.
pub run-IsSound :
    (describe : List ℕ → List Head → String) (s : State) (es : List Event)
    → IsSound s
    → IsSound (run describe s es)
unfolding run
run-IsSound describe s [] i = i
run-IsSound describe s (e ∷ es) i =
    run-IsSound describe (step describe s e) es (step-IsSound describe s e i)
