-- ===== src/Wayland/OutputConfig/Outcomes/Steps.antt =====
-- Every step tells the client what the module above allows, and no more.
use Prim.Native.String.{String}
use xwlrvnc.Dynres
use xwlrvnc.Base.{
  ℕ, ◌≡◌, refl, ◌∙◌, ◌⊎◌, inl, inr, Bool, true, ◌&&◌, none, some, List, arith, Bool-cases,
  if◌then◌else◌, is_some, ◌==◌,
}
use xwlrvnc.Wayland.OutputConfig.Outcomes.{
  Told, cleared, dynres_advance-Told, dynres_config_event-Told, failure, finished_err-Told,
  finished_ok-Told, active_of-IsOnWay, quiet, success,
}
use xwlrvnc.Wayland.OutputConfig.Events.{
  Event, HeadEvent, collects, config_event, dynres_output_changed, dynres_output_removed, enters,
  head_added, head_enabled, head_event, head_finished, head_mode, head_name, is_settling,
  manager_done, manager_finished, mode_event, on_done, on_head, on_head_event, on_manager_finished,
  output_changed, output_removed, outputs_become, pick_up, screen_becomes, step, tick_dynres, ticks,
  with_config,
}
use xwlrvnc.Wayland.OutputConfig.{
  Active, Head, OutputConfig, State, active_of, dynres_advance, dynres_fail, finished,
  if_managed_lem, if_working, if_working_lem, is_shown, learned,
}
use xwlrvnc.Dynres.{DynRes, busy, err, ok}

with_config-done :
    (f : OutputConfig → OutputConfig) (s : State) → (with_config f s).dynres.done ≡ s.dynres.done
with_config-done f s =
    if_managed_lem (λ t. t.dynres.done ≡ s.dynres.done) s.output_config s
      (λ c. record s { output_config = some (f c) }) refl (λ c e. refl)

-- A request that a step may drop.
dropped-Told :
    (test : OutputConfig → Active → Bool) (reason : String) (s t : State)
    → t.dynres.done ≡ s.dynres.done
    → Told s
        (if_working (active_of t) t (λ c a. if test c a then finished (err reason) c a t else t))
dropped-Told test reason s t tells =
    if_working_lem (Told s) (active_of t) t
      (λ c a. if test c a then finished (err reason) c a t else t) (quiet tells)
      (λ c a e. elim (Bool-cases (test c a)) [
        | inl ends ↦ rw ends (finished_err-Told s t c a reason)
        | inr stays ↦ rw stays (quiet tells)
      ])

on_head_event-Told : (proxy : ℕ) (e : HeadEvent) (s : State) → Told s (on_head_event proxy e s)
unfolding on_head_event
on_head_event-Told proxy e s = on e
  where
    same :
        (e : HeadEvent)
        → (with_config (λ c. record c { heads = on_head proxy e c.heads }) s).dynres.done
          ≡ s.dynres.done
    same e = with_config-done (λ c. record c { heads = on_head proxy e c.heads }) s

    on : (e : HeadEvent) → Told s (on_head_event proxy e s)
    on head_finished =
        dropped-Told (λ c a. a.head == proxy) "the output went away" s
          (with_config (λ c. record c { heads = on_head proxy head_finished c.heads }) s)
          (same head_finished)
    on (head_name name) = quiet (same (head_name name))
    on (head_enabled b) = quiet (same (head_enabled b))
    on (head_mode mode) = quiet (same (head_mode mode))

-- The withdrawal tells what the failure told.
withdrawn-Told : (s t u : State) → u.dynres.done ≡ t.dynres.done → Told s t → Told s u
withdrawn-Told s t u e (quiet q) = quiet (e ∙ q)
withdrawn-Told s t u e (cleared q) = cleared (e ∙ q)
withdrawn-Told s t u e (failure id reason q) = failure id reason (e ∙ q)
withdrawn-Told s t u e (success req asks shown q) = success req asks shown (e ∙ q)

on_manager_finished-Told : (s : State) → Told s (on_manager_finished s)
unfolding on_manager_finished dynres_fail
on_manager_finished-Told s =
    let reason : String = "the compositor withdrew the output manager" in
    elim (Bool-cases (is_some s.output_config)) [
      | inr gone ↦ rw gone (quiet refl)
      | inl there ↦ rw there (
          withdrawn-Told s (dynres_fail reason s) _ refl
            (dropped-Told (λ c a. true) reason s s refl))
    ]

dynres_output_changed-Told : (wl_name : ℕ) (s : State) → Told s (dynres_output_changed wl_name s)
unfolding dynres_output_changed
dynres_output_changed-Told wl_name s =
    if_working_lem (Told s) (active_of s) s
      (λ c a.
        if a.req.wl_name == wl_name && is_settling a.phase && is_shown a.req s
        then finished ok (learned a.current c) a s
        else s)
      (quiet refl)
      (λ c a e.
        elim (Bool-cases (a.req.wl_name == wl_name && is_settling a.phase && is_shown a.req s)) [
          | inr no_match ↦ rw no_match (quiet refl)
          | inl match ↦ rw match (
              finished_ok-Told s s (learned a.current c) a (active_of-IsOnWay s c a e)
                (ground arith))
        ])

on_done-Told : (serial now : ℕ) (s : State) → Told s (on_done serial now s)
unfolding on_done
on_done-Told serial now s =
    if_managed_lem (Told s) s.output_config s
      (λ c.
        dynres_advance now (record s { output_config = some (record c { serial = some serial }) }))
      (quiet refl)
      (λ m e.
        dynres_advance-Told now s
          (record s { output_config = some (record m { serial = some serial }) })
          (λ c a f. record { asks = ground arith; tells = refl; looks = refl }) refl)

done-enter :
    (wl_name width height now deadline : ℕ) (s : State)
    → Told s (record s { dynres = (Dynres.enter wl_name width height now deadline s.dynres).0 })
unfolding Dynres.enter
done-enter wl_name width height now deadline s = elim (Bool-cases (busy s.dynres)) [
  | inl waits ↦ rw waits (quiet refl)
  | inr free ↦ rw free (cleared refl)
]

collect_lem :
    (id now deadline : ℕ) (d : DynRes)
    → ((Dynres.collect id now deadline d).0.done ≡ d.done)
      ⊎ ((Dynres.collect id now deadline d).0.done ≡ none)
unfolding Dynres.collect
collect_lem id now deadline d = ground arith

done-collect :
    (id now deadline : ℕ) (s : State)
    → Told s (record s { dynres = (Dynres.collect id now deadline s.dynres).0 })
done-collect id now deadline s = elim (collect_lem id now deadline s.dynres) [
  | inl same ↦ quiet same
  | inr gone ↦ cleared gone
]

-- The state that a step's answers are about: a tick takes a waiting request up first.
abbrev pub settled_in : (List ℕ → List Head → String) → State → Event → State
settled_in describe s (ticks now) = pick_up describe now s
settled_in describe s _ = s

-- Whatever happens, no client is told that its resolution change was carried out unless the screen shows the
-- output at the size that the request at hand asks for: each step leaves the outcome that is waiting to be collected as it was, takes it
-- away, makes it a failure, or makes it the success of a request that was at hand and is shown. Of a tick,
-- this is said from where it has taken a waiting request up.
pub step-Told :
    (describe : List ℕ → List Head → String) (s : State) (e : Event)
    → Told (settled_in describe s e) (step describe s e)
unfolding step tick_dynres dynres_output_removed
step-Told describe s (ticks now) =
    let t = pick_up describe now s in dynres_advance-Told now t t (active_of-IsOnWay t) refl
step-Told describe s (head_added proxy) = quiet (with_config-done _ s)
step-Told describe s (manager_done serial now) = on_done-Told serial now s
step-Told describe s manager_finished = on_manager_finished-Told s
step-Told describe s (head_event proxy e) = on_head_event-Told proxy e s
step-Told describe s (mode_event proxy e) = quiet (with_config-done _ s)
step-Told describe s (config_event config answer now) = dynres_config_event-Told config answer now s
step-Told describe s (output_changed wl_name) = dynres_output_changed-Told wl_name s
step-Told describe s (output_removed wl_name) =
    dropped-Told (λ c a. a.req.wl_name == wl_name) "the output went away" s s refl
step-Told describe s (enters wl_name width height now deadline) =
    done-enter wl_name width height now deadline s
step-Told describe s (collects id now deadline) = done-collect id now deadline s
step-Told describe s (outputs_become outputs) = quiet refl
step-Told describe s (screen_becomes screen) = quiet refl
