-- ===== src/Wayland/OutputConfig.antt =====
-- bridge/wayland/output_config.rs: carrying out a resolution change by output configurations. A protocol
-- object is its number; sending a request is adding it to `applied` or `destroyed`. `now` is the time, read
-- once for each call, in milliseconds. Messages go to the log in the source, and are left out.
pub mod Events
pub mod Budget
pub mod Deadlines
pub mod Requests
pub mod Outcomes
use Prim.Native.String.{String}
use xwlrvnc.Base.{
  ℕ, suc, ◌+◌, ◌≡◌, refl, Bool, true, false, not, ◌&&◌, ◌||◌, ◌==◌, if◌then◌else◌, leb, ltb, List,
  [], ◌∷◌, ◌++◌, Option, none, some, is_some, is_empty, any, find, bytes_eq, retain,
}
use xwlrvnc.Base.Assoc
use xwlrvnc.Base.Int.{ℤ, pos, eqb_ℤ, ltb_ℤ, leb_ℤ}
use xwlrvnc.Dynres
use xwlrvnc.Dynres.{ModeRequest, DynRes, Outcome, ok, err, complete}
use xwlrvnc.Util.Transform.{Transform, swaps_axes}
use xwlrvnc.X11.Randr.{Screen, Output, output_by_wl_name}

abbrev pub serial_timeout : ℕ
serial_timeout = 2000

abbrev pub apply_timeout : ℕ
apply_timeout = 5000

abbrev pub settle_timeout : ℕ
settle_timeout = 1500

abbrev pub cancel_timeout : ℕ
cancel_timeout = 2000

abbrev pub max_cancelled : ℕ
max_cancelled = 3

abbrev pub default_refresh_mhz : ℤ
default_refresh_mhz = pos 60000

pub record Mode : Type 0 where
  pub proxy : ℕ
  pub width : ℤ
  pub height : ℤ
  pub refresh : ℤ
  pub preferred : Bool

pub record Head : Type 0 where
  pub proxy : ℕ
  pub name : List ℕ
  pub enabled : Bool
  pub modes : List Mode

pub data Attempt : Type 0 where
  advertised : Attempt
  custom : ℤ → Attempt

pub data Phase : Type 0 where
  need_serial applying settling cancelled : Phase

pub record Active : Type 0 where
  pub req : ModeRequest
  pub head : ℕ
  pub mode_w : ℤ
  pub mode_h : ℤ
  pub attempts : List Attempt
  pub current : Option Attempt
  pub phase : Phase
  pub deadline : ℕ
  pub config : Option ℕ
  pub serial_used : ℕ
  pub cancels : ℕ

pub record OutputConfig : Type 0 where
  pub serial : Option ℕ
  pub heads : List Head
  pub active : Option Active
  pub zero_refresh_first : Bool

-- What a configuration asks of a head.
pub data HeadRequest : Type 0 where
  disable_head enable_head : ℕ → HeadRequest
  set_mode : (head mode : ℕ) → HeadRequest
  set_custom_mode : (head : ℕ) → (width height refresh : ℤ) → HeadRequest

pub record Configuration : Type 0 where
  pub config : ℕ
  pub serial : ℕ
  pub requests : List HeadRequest

-- What wayland/output.rs knows of an output.
pub record OutputAcc : Type 0 where
  pub name : List ℕ
  pub transform : Transform
  pub refresh_mhz : ℤ

-- The part of `State` that this file reads and writes, and what it has sent. `taken` counts the requests
-- taken from `dynres`.
pub record State : Type 0 where
  pub output_config : Option OutputConfig
  pub outputs : List (ℕ × OutputAcc)
  pub dynres : DynRes
  pub screen : Screen
  pub next_config : ℕ
  pub applied : List Configuration
  pub destroyed : List ℕ
  pub taken : ℕ

abbrev pub new : OutputConfig
new = record { serial = none; heads = []; active = none; zero_refresh_first = true }

abbrev pub head_only : List ℕ → List Head → Option Head
head_only name (only ∷ []) = if is_empty name || is_empty only.name then some only else none
head_only name _ = none

unfoldable pub head_named : List ℕ → List Head → Option Head
head_named name heads =
    let named = find (λ (h : Head). bytes_eq h.name name) heads in
    if not (is_empty name) && is_some named then named else head_only name heads

abbrev pub has_size : ℤ → ℤ → Mode → Bool
has_size w h m = eqb_ℤ m.width w && eqb_ℤ m.height h

-- `Active::plan`.
unfoldable pub plan : Head → ℤ → ℤ → ℤ → Bool → List Attempt
plan head mode_w mode_h refresh zero_first =
    let own = custom (if ltb_ℤ (pos 0) refresh then refresh else default_refresh_mhz) in
    let zero = custom (pos 0) in
    let rest = if zero_first then zero ∷ own ∷ [] else own ∷ zero ∷ [] in
    if any (has_size mode_w mode_h) head.modes then advertised ∷ rest else rest

-- `(m.preferred, m.refresh) >= (best.preferred, best.refresh)`: the last of the greatest stays.
abbrev pub at_least : Mode → Mode → Bool
at_least m best =
    if m.preferred
    then not best.preferred || leb_ℤ best.refresh m.refresh
    else not best.preferred && leb_ℤ best.refresh m.refresh

abbrev pub better : Mode → Option Mode → Option Mode
better m none = some m
better m (some later) = if at_least later m then some later else some m

-- `filter` and `max_by_key`.
abbrev pub best_mode : ℤ → ℤ → List Mode → Option Mode
best_mode w h [] = none
best_mode w h (m ∷ ms) =
    let best = best_mode w h ms in if has_size w h m then better m best else best

abbrev pub mode_request : Head → ℤ → ℤ → Attempt → HeadRequest
mode_request head w h advertised = elim (best_mode w h head.modes) [
  | some m ↦ set_mode head.proxy m.proxy
  | none ↦ set_custom_mode head.proxy w h (pos 0)
]
mode_request head w h (custom refresh) = set_custom_mode head.proxy w h refresh

-- The loop over the heads.
unfoldable pub configure : Active → Attempt → List Head → List HeadRequest
configure a attempt [] = []
configure a attempt (head ∷ heads) =
    let rest = configure a attempt heads in
    if head.proxy == a.head
    then enable_head head.proxy ∷ mode_request head a.mode_w a.mode_h attempt ∷ rest
    else if head.enabled
    then enable_head head.proxy ∷ rest
    else disable_head head.proxy ∷ rest

abbrev pub working : Option OutputConfig → Option (OutputConfig × Active)
working none = none
working (some c) = elim c.active [ none ↦ none | some a ↦ some (c, a) ]

-- The request being carried out, with the manager that carries it out.
abbrev pub active_of : State → Option (OutputConfig × Active)
active_of s = working s.output_config

-- `let Some(active) = .. else`.
abbrev pub if_working :
    Option (OutputConfig × Active) → State → (OutputConfig → Active → State) → State
if_working none otherwise k = otherwise
if_working (some (c, a)) otherwise k = k c a

abbrev pub if_managed : Option OutputConfig → State → (OutputConfig → State) → State
if_managed none otherwise k = otherwise
if_managed (some c) otherwise k = k c

abbrev pub proxies : Option ℕ → List ℕ
proxies none = []
proxies (some config) = config ∷ []

-- `dynres_take_active` and the completion that follows it.
unfoldable pub finished : Outcome → OutputConfig → Active → State → State
finished result c a s = record s {
  output_config = some (record c { active = none });
  destroyed = s.destroyed ++ proxies a.config;
  dynres = complete a.req.id result s.dynres;
}

-- `cfg.zero_refresh_first = refresh == 0`, if the last attempt was a custom mode.
abbrev pub learned : Option Attempt → OutputConfig → OutputConfig
learned (some (custom refresh)) c = record c { zero_refresh_first = eqb_ℤ refresh (pos 0) }
learned _ c = c

unfoldable pub dynres_succeed : State → State
unfolding finished
dynres_succeed s = if_working (active_of s) s (λ c a. finished ok (learned a.current c) a s)

unfoldable pub dynres_fail : String → State → State
unfolding finished
dynres_fail reason s = if_working (active_of s) s (λ c a. finished (err reason) c a s)

abbrev pub shows : ModeRequest → Option Output → Bool
shows req none = false
shows req (some o) = o.width == req.width && o.height == req.height

-- `dynres_settled`, of this request.
abbrev pub is_shown : ModeRequest → State → Bool
is_shown req s = shows req (output_by_wl_name req.wl_name s.screen)

-- `dynres_apply_next`, once there is a serial.
unfoldable pub apply_from : List Attempt → ℕ → ℕ → OutputConfig → Active → State → State
unfolding finished
apply_from [] serial now c a s =
    finished (err "the compositor rejected every way of setting the mode") c a s
apply_from (attempt ∷ rest) serial now c a s = record s {
  output_config = some (record c {
    active = some (record a {
      attempts = rest;
      current = some attempt;
      phase = applying;
      deadline = now + apply_timeout;
      config = some s.next_config;
      serial_used = serial;
    });
  });
  next_config = suc s.next_config;
  applied =
      s.applied
      ++ (record { config = s.next_config; serial = serial; requests = configure a attempt c.heads }
          ∷ []);
  destroyed = s.destroyed ++ proxies a.config;
}

abbrev pub apply_with : Option ℕ → ℕ → OutputConfig → Active → State → State
apply_with none now c a s = s
apply_with (some serial) now c a s = apply_from a.attempts serial now c a s

unfoldable pub dynres_apply_next : ℕ → State → State
unfolding apply_from
dynres_apply_next now s = if_working (active_of s) s (λ c a. apply_with c.serial now c a s)

abbrev pub is_newer : Option ℕ → ℕ → Bool
is_newer none used = false
is_newer (some serial) used = not (serial == used)

-- `dynres_advance`, by the phase of the active request.
abbrev pub advance_in : Phase → ℕ → OutputConfig → Active → State → State
advance_in need_serial now c a s =
    if is_some c.serial
    then apply_with c.serial now c a s
    else if leb a.deadline now
    then finished (err "the output manager never sent a serial") c a s
    else s
advance_in applying now c a s =
    if leb a.deadline now
    then finished (err "the compositor did not answer the configuration") c a s
    else s
advance_in settling now c a s =
    if is_shown a.req s
    then finished ok (learned a.current c) a s
    else if leb a.deadline now
    then apply_with c.serial now c a s
    else s
advance_in cancelled now c a s =
    if is_newer c.serial a.serial_used
    then apply_with c.serial now c a s
    else if leb a.deadline now
    then finished (err "the compositor kept cancelling the configuration") c a s
    else s

unfoldable pub dynres_advance : ℕ → State → State
unfolding apply_from finished
dynres_advance now s = if_working (active_of s) s (λ c a. advance_in a.phase now c a s)

-- What holds with no request at hand and with each one holds.
pub if_working_lem {ℓ} :
    (P : State → Type ℓ) (w : Option (OutputConfig × Active)) (otherwise : State)
    (k : OutputConfig → Active → State)
    → P otherwise
    → ((c : OutputConfig) (a : Active) → w ≡ some (c, a) → P (k c a))
    → P (if_working w otherwise k)
if_working_lem P none otherwise k p q = p
if_working_lem P (some (c, a)) otherwise k p q = q c a refl

pub if_managed_lem {ℓ} :
    (P : State → Type ℓ) (m : Option OutputConfig) (otherwise : State) (k : OutputConfig → State)
    → P otherwise
    → ((c : OutputConfig) → m ≡ some c → P (k c))
    → P (if_managed m otherwise k)
if_managed_lem P none otherwise k p q = p
if_managed_lem P (some c) otherwise k p q = q c refl
