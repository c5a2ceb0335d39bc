-- ===== src/Wayland/OutputConfig/Events.antt =====
-- bridge/wayland/output_config.rs: a request taken up, the compositor's events, and any sequence of them
-- and of what the other threads do.
use Prim.Native.String.{String}
use xwlrvnc.Base.{
  ℕ, suc, ◌+◌, Bool, true, false, not, ◌&&◌, ◌==◌, if◌then◌else◌, ltb, List, [], ◌∷◌, ◌++◌, Option,
  none, some, is_some, any, retain, update_first,
}
use xwlrvnc.Base.Assoc
use xwlrvnc.Base.Int.{ℤ, pos}
use xwlrvnc.Dynres.{ModeRequest, DynRes, Outcome, ok, err, complete, set_available}
use xwlrvnc.Dynres
use xwlrvnc.Util.Transform.{swaps_axes}
use xwlrvnc.X11.Randr.{Screen}
use xwlrvnc.Wayland.OutputConfig.{
  Mode, Head, Attempt, Phase, need_serial, settling, cancelled, Active, OutputConfig, OutputAcc,
  State, head_named, plan, active_of, if_working, if_managed, finished, learned, dynres_fail,
  is_shown, dynres_advance, serial_timeout, settle_timeout, cancel_timeout, max_cancelled,
  apply_with, apply_from, advance_in,
}

-- The mode of a screen size, in the panel's own orientation.
abbrev pub mode_size : OutputAcc → ModeRequest → ℤ × ℤ
mode_size acc req =
    if swaps_axes acc.transform
    then (pos req.height, pos req.width)
    else (pos req.width, pos req.height)

abbrev pub begun : ModeRequest → OutputAcc → Head → ℕ → OutputConfig → State → State
begun req acc head now c s =
    let (w, h) = mode_size acc req in
    record s {
      output_config = some (record c {
        active = some (record {
          req = req;
          head = head.proxy;
          mode_w = w;
          mode_h = h;
          attempts = plan head w h acc.refresh_mhz c.zero_refresh_first;
          current = none;
          phase = need_serial;
          deadline = now + serial_timeout;
          config = none;
          serial_used = 0;
          cancels = 0;
        });
      });
    }

abbrev pub refuse : ModeRequest → String → State → State
refuse req reason s = record s { dynres = complete req.id (err reason) s.dynres }

-- `describe` is the text that names the output and the heads there are.
unfoldable pub dynres_start :
    (List ℕ → List Head → String) → ModeRequest → ℕ → OutputConfig → State → State
dynres_start describe req now c s = elim (Assoc.get req.wl_name s.outputs) [
  | none ↦ refuse req "the output no longer exists" s
  | some acc ↦ elim (head_named acc.name c.heads) [
    | none ↦ refuse req (describe acc.name c.heads) s
    | some head ↦ begun req acc head now c s
  ]
]

-- What is left of the state once `dynres` was asked for a request.
abbrev pub asked : DynRes → Option ModeRequest → State → State
asked d none s = record s { dynres = d }
asked d (some req) s = record s { dynres = d; taken = suc s.taken }

abbrev pub take_up :
    (List ℕ → List Head → String) → Option ModeRequest → ℕ → OutputConfig → State → State
take_up describe none now c s = s
take_up describe (some req) now c s = dynres_start describe req now c s

abbrev pub refuse_all : Option ModeRequest → State → State
refuse_all none s = s
refuse_all (some req) s = refuse req "the compositor has no zwlr_output_manager_v1" s

-- The part of `tick_dynres` before `dynres_advance`.
unfoldable pub pick_up : (List ℕ → List Head → String) → ℕ → State → State
unfolding dynres_start
pick_up describe now s =
    let (d, req) = Dynres.take s.dynres in
    if_managed s.output_config (refuse_all req (asked d req s))
      (λ c. if is_some c.active then s else take_up describe req now c (asked d req s))

unfoldable pub tick_dynres : (List ℕ → List Head → String) → ℕ → State → State
unfolding pick_up dynres_advance
tick_dynres describe now s = dynres_advance now (pick_up describe now s)

abbrev pub is_settling : Phase → Bool
is_settling settling = true
is_settling _ = false

unfoldable pub dynres_output_changed : ℕ → State → State
unfolding finished
dynres_output_changed wl_name s = if_working (active_of s) s (λ c a.
    if a.req.wl_name == wl_name && is_settling a.phase && is_shown a.req s
    then finished ok (learned a.current c) a s
    else s)

unfoldable pub dynres_output_removed : ℕ → State → State
unfolding finished
dynres_output_removed wl_name s =
    if_working (active_of s) s
      (λ c a. if a.req.wl_name == wl_name then finished (err "the output went away") c a s else s)

pub data Answer : Type 0 where
  succeeded failed cancelled_answer : Answer

abbrev pub same_config : Option ℕ → ℕ → Bool
same_config none config = false
same_config (some used) config = used == config

-- `if let Some(cur) = active.current.take() { active.attempts.insert(0, cur) }`.
abbrev pub put_back : Option Attempt → List Attempt → List Attempt
put_back none attempts = attempts
put_back (some cur) attempts = cur ∷ attempts

abbrev pub with_active : Active → OutputConfig → State → State
with_active a c s = record s { output_config = some (record c { active = some a }) }

-- The answer to the configuration at hand, which is destroyed by now.
abbrev pub answered : Answer → ℕ → OutputConfig → Active → State → State
answered succeeded now c a s =
    if is_shown a.req s
    then finished ok (learned a.current c)
        (record a { phase = settling; deadline = now + settle_timeout }) s
    else with_active (record a { phase = settling; deadline = now + settle_timeout }) c s
answered failed now c a s = apply_with c.serial now c a (with_active a c s)
answered cancelled_answer now c a s =
    let b : Active = record a { cancels = suc a.cancels } in
    let retry : Active = record b {
      attempts = put_back a.current a.attempts;
      current = none;
      phase = cancelled;
      deadline = now + cancel_timeout;
    } in
    if ltb max_cancelled (suc a.cancels)
    then finished (err "the compositor kept cancelling the configuration") c b s
    else advance_in cancelled now c retry (with_active retry c s)

unfoldable pub dynres_config_event : ℕ → Answer → ℕ → State → State
unfolding apply_from finished
dynres_config_event config answer now s =
    let d = record s { destroyed = s.destroyed ++ (config ∷ []) } in
    if_working (active_of s) d (λ c a.
      if same_config a.config config
      then answered answer now c (record a { config = none }) d
      else d)

pub data HeadEvent : Type 0 where
  head_finished : HeadEvent
  head_name : List ℕ → HeadEvent
  head_enabled : Bool → HeadEvent
  head_mode : ℕ → HeadEvent

pub data ModeEvent : Type 0 where
  mode_finished : ModeEvent
  mode_sized : ℤ → ℤ → ModeEvent
  mode_refresh : ℤ → ModeEvent
  mode_preferred : ModeEvent

-- What the Wayland thread handles, and what the other threads do between two calls of it: an X thread's turns at
-- `dynres`, and changes of the outputs and of the screen.
pub data Event : Type 0 where
  ticks : ℕ → Event
  head_added : ℕ → Event
  manager_done : ℕ → ℕ → Event
  manager_finished : Event
  head_event : ℕ → HeadEvent → Event
  mode_event : ℕ → ModeEvent → Event
  config_event : ℕ → Answer → ℕ → Event
  output_changed output_removed : ℕ → Event
  enters : (wl_name width height now deadline : ℕ) → Event
  collects : (id now deadline : ℕ) → Event
  outputs_become : List (ℕ × OutputAcc) → Event
  screen_becomes : Screen → Event

abbrev pub with_config : (OutputConfig → OutputConfig) → State → State
with_config f s = if_managed s.output_config s (λ c. record s { output_config = some (f c) })

abbrev pub fresh_head : ℕ → Head
fresh_head proxy = record { proxy = proxy; name = []; enabled = false; modes = [] }

abbrev pub fresh_mode : ℕ → Mode
fresh_mode proxy = record {
  proxy = proxy;
  width = pos 0;
  height = pos 0;
  refresh = pos 0;
  preferred = false;
}

abbrev pub is_head : ℕ → Head → Bool
is_head proxy h = h.proxy == proxy

-- `cfg.heads.remove(i)` of the first head that has this proxy.
abbrev pub without_head : ℕ → List Head → List Head
without_head proxy [] = []
without_head proxy (h ∷ hs) = if is_head proxy h then hs else h ∷ without_head proxy hs

abbrev pub is_mode : ℕ → Mode → Bool
is_mode proxy m = m.proxy == proxy

abbrev pub has_mode : ℕ → Head → Bool
has_mode proxy h = any (is_mode proxy) h.modes

-- The releases of the finished objects are left out.
abbrev pub on_head : ℕ → HeadEvent → List Head → List Head
on_head proxy head_finished hs = without_head proxy hs
on_head proxy (head_name name) hs = update_first (is_head proxy) (λ h. record h { name = name }) hs
on_head proxy (head_enabled b) hs = update_first (is_head proxy) (λ h. record h { enabled = b }) hs
on_head proxy (head_mode mode) hs =
    update_first (is_head proxy) (λ h. record h { modes = h.modes ++ (fresh_mode mode ∷ []) }) hs

abbrev pub on_mode : ℕ → ModeEvent → Mode → Mode
on_mode proxy (mode_sized w h) m = record m { width = w; height = h }
on_mode proxy (mode_refresh r) m = record m { refresh = r }
on_mode proxy mode_preferred m = record m { preferred = true }
on_mode proxy mode_finished m = m

abbrev pub on_modes : ℕ → ModeEvent → List Mode → List Mode
on_modes proxy mode_finished ms = retain (λ m. not (is_mode proxy m)) ms
on_modes proxy e ms = update_first (is_mode proxy) (on_mode proxy e) ms

-- A head that is gone takes the request at it along.
abbrev pub head_gone : ℕ → State → State
head_gone proxy s =
    if_working (active_of s) s
      (λ c a. if a.head == proxy then finished (err "the output went away") c a s else s)

unfoldable pub on_head_event : ℕ → HeadEvent → State → State
unfolding finished
on_head_event proxy e s =
    let t = with_config (λ c. record c { heads = on_head proxy e c.heads }) s in
    elim e [ head_finished ↦ head_gone proxy t | _ ↦ t ]

unfoldable pub on_manager_finished : State → State
unfolding dynres_fail
on_manager_finished s =
    let t = dynres_fail "the compositor withdrew the output manager" s in
    if is_some s.output_config
    then record t { output_config = none; dynres = set_available false t.dynres }
    else s

-- The event of a manager that is not there is not looked at.
unfoldable pub on_done : ℕ → ℕ → State → State
unfolding dynres_advance
on_done serial now s = if_managed s.output_config s (λ c.
    dynres_advance now (record s { output_config = some (record c { serial = some serial }) }))

module _ (describe : List ℕ → List Head → String) where
  unfoldable pub step : State → Event → State
  unfolding tick_dynres dynres_output_changed dynres_output_removed dynres_config_event
      on_head_event on_manager_finished on_done
  step s (ticks now) = tick_dynres describe now s
  step s (head_added proxy) =
      with_config (λ c. record c { heads = c.heads ++ (fresh_head proxy ∷ []) }) s
  step s (manager_done serial now) = on_done serial now s
  step s manager_finished = on_manager_finished s
  step s (head_event proxy e) = on_head_event proxy e s
  step s (mode_event proxy e) =
      with_config
        (λ c. record c {
          heads =
              update_first (has_mode proxy) (λ h. record h { modes = on_modes proxy e h.modes })
                c.heads;
        })
        s
  step s (config_event config answer now) = dynres_config_event config answer now s
  step s (output_changed wl_name) = dynres_output_changed wl_name s
  step s (output_removed wl_name) = dynres_output_removed wl_name s
  step s (enters wl_name width height now deadline) = record s {
    dynres = (Dynres.enter wl_name width height now deadline s.dynres).0;
  }
  step s (collects id now deadline) = record s {
    dynres = (Dynres.collect id now deadline s.dynres).0;
  }
  step s (outputs_become outputs) = record s { outputs = outputs }
  step s (screen_becomes screen) = record s { screen = screen }

  unfoldable pub run : State → List Event → State
  run s [] = s
  run s (e ∷ es) = run (step s e) es
