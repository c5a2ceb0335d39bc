-- ===== src/Examples/Configs.antt =====
-- A concrete compositor with one output, and a request at hand.
use Prim.Native.String.{String}
use xwlrvnc.Base.{ℕ, ◌≡◌, refl, true, false, none, some, List, [], ◌∷◌, arith, ◌==◌, retain}
use xwlrvnc.Wayland.OutputConfig.Budget.{IsSound}
use xwlrvnc.Wayland.OutputConfig.Budget.Steps.{run-IsSound}
use xwlrvnc.Wayland.OutputConfig.Deadlines.{late, silence_ends}
use xwlrvnc.Wayland.OutputConfig.Outcomes.{Told}
use xwlrvnc.Wayland.OutputConfig.Outcomes.Steps.{settled_in, step-Told}
use xwlrvnc.Wayland.OutputConfig.Requests.{
  IsBest, best_mode-IsBest, configure_lem, head_proxies, is_switch, moded, switched, wanted,
}
use xwlrvnc.Wayland.OutputConfig.Events.{Event, config_event, failed, run, step, succeeded, ticks}
use xwlrvnc.Wayland.OutputConfig.{
  Active, Head, Mode, OutputConfig, State, active_of, advertised, applying, best_mode, configure,
  custom,
}
use xwlrvnc.Dynres.{ModeRequest}
use xwlrvnc.Base.Int.{pos}

abbrev wide : Mode
wide = record {
  proxy = 31;
  width = pos 1280;
  height = pos 800;
  refresh = pos 60000;
  preferred = true;
}

abbrev fast : Mode
fast = record wide { proxy = 32; refresh = pos 75000; preferred = false }

abbrev panel : Head
panel = record { proxy = 21; name = 72 ∷ []; enabled = true; modes = wide ∷ fast ∷ [] }

abbrev other : Head
other = record { proxy = 22; name = 73 ∷ []; enabled = false; modes = [] }

abbrev asked_for : ModeRequest
asked_for = record { id = 4; wl_name = 7; width = 1280; height = 800 }

-- Waiting for the compositor's answer.
abbrev trying : Active
trying = record {
  req = asked_for;
  head = 21;
  mode_w = pos 1280;
  mode_h = pos 800;
  attempts = custom (pos 0) ∷ custom (pos 60000) ∷ [];
  current = some advertised;
  phase = applying;
  deadline = 5000;
  config = some 1;
  serial_used = 9;
  cancels = 0;
}

abbrev manager : OutputConfig
manager = record {
  serial = some 9;
  heads = panel ∷ other ∷ [];
  active = some trying;
  zero_refresh_first = true;
}

abbrev state : State
state = record {
  output_config = some manager;
  outputs = [];
  dynres = record {
    next_id = 4;
    queued = none;
    in_flight = some 4;
    done = none;
    wake = 0;
    available = true;
  };
  screen = record {
    width = 640;
    height = 480;
    modes = [];
    outputs = [];
    next_id = 1280;
    timestamp = 0;
    config_timestamp = 0;
  };
  next_config = 2;
  applied = record { config = 1; serial = 9; requests = [] } ∷ [];
  destroyed = [];
  taken = 1;
}

abbrev no_text : List ℕ → List Head → String
no_text name heads = "no such output"

abbrev events : List Event
events = config_event 1 failed 40 ∷ ticks 5041 ∷ []

state-IsSound : IsSound state
state-IsSound = record { frugal = omega arith; linked = refl; served = refl }

step-Told_example :
    Told
      (settled_in no_text state (config_event 1 succeeded 40))
      (step no_text state (config_event 1 succeeded 40))
step-Told_example = step-Told no_text state (config_event 1 succeeded 40)

run-IsSound_example : IsSound (run no_text state events)
run-IsSound_example = run-IsSound no_text state events state-IsSound

silence_ends_example :
    (active_of (late 3 (late 0 state)) ≡ none) × ((late 3 (late 0 state)).dynres.in_flight ≡ none)
silence_ends_example = silence_ends 0 3 state state-IsSound

configure_lem_example :
    let requests = configure trying advertised manager.heads in
    (switched requests ≡ head_proxies manager.heads)
    × (retain is_switch requests ≡ wanted trying.head manager.heads)
    × (moded requests ≡ retain (λ h. h == trying.head) (head_proxies manager.heads))
configure_lem_example = configure_lem trying advertised manager.heads

best_mode-IsBest_example :
    IsBest (pos 1280) (pos 800) panel.modes (best_mode (pos 1280) (pos 800) panel.modes)
best_mode-IsBest_example = best_mode-IsBest (pos 1280) (pos 800) panel.modes
