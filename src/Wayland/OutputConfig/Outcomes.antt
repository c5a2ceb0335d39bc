-- ===== src/Wayland/OutputConfig/Outcomes.antt =====
-- What a client is told of its resolution change.
pub mod Steps
use Prim.Native.String.{String}
use xwlrvnc.Dynres
use xwlrvnc.Base.{
  ℕ, suc, ◌+◌, ◌≡◌, refl, sym, ap, ◌∙◌, inl, inr, Bool, true, false, Option, none, some, List, [],
  ◌∷◌, ◌++◌, Bool-cases, if◌then◌else◌, is_some, leb, ltb, rest,
}
use xwlrvnc.Wayland.OutputConfig.Events.{
  Answer, answered, cancelled_answer, dynres_config_event, failed, put_back, same_config, succeeded,
  with_active,
}
use xwlrvnc.Wayland.OutputConfig.{
  Active, Attempt, OutputConfig, Phase, State, active_of, advance_in, apply_from, apply_with,
  applying, cancel_timeout, cancelled, dynres_advance, finished, if_working_lem, is_newer, is_shown,
  learned, max_cancelled, need_serial, settle_timeout, settling, shows,
}
use xwlrvnc.Dynres.{ModeRequest, complete, err, ok}
use xwlrvnc.X11.Randr.{output_by_wl_name}

abbrev pub request_of : Option (OutputConfig × Active) → Option ModeRequest
request_of none = none
request_of (some (c, a)) = some a.req

-- What a step from `s` to `t` tells the client: nothing, nothing any more, that its request failed, or that it is carried
-- out, which the screen shows.
pub data Told (s t : State) : Type 0 where
  quiet : t.dynres.done ≡ s.dynres.done → Told s t
  cleared : t.dynres.done ≡ none → Told s t
  failure : (id : ℕ) (reason : String) → t.dynres.done ≡ some (id, err reason) → Told s t
  success :
      (req : ModeRequest)
      → request_of (active_of s) ≡ some req
      → is_shown req s ≡ true
      → t.dynres.done ≡ some (req.id, ok)
      → Told s t

-- A state on the way from `s`, with its request `a` still at hand.
pub record IsOnWay (s : State) (a : Active) (t : State) : Type 0 where
  pub asks : request_of (active_of s) ≡ some a.req
  pub tells : t.dynres.done ≡ s.dynres.done
  pub looks : t.screen ≡ s.screen

pub finished_ok-Told :
    (s t : State) (c : OutputConfig) (a : Active)
    → IsOnWay s a t
    → is_shown a.req t ≡ true
    → Told s (finished ok c a t)
unfolding finished complete
finished_ok-Told s t c a w shown =
    success a.req w.asks
      (sym (ap (λ screen. shows a.req (output_by_wl_name a.req.wl_name screen)) w.looks) ∙ shown)
      refl

pub finished_err-Told :
    (s t : State) (c : OutputConfig) (a : Active) (reason : String)
    → Told s (finished (err reason) c a t)
unfolding finished complete
finished_err-Told s t c a reason = failure a.req.id reason refl

apply_from-Told :
    (attempts : List Attempt) (serial now : ℕ) (c : OutputConfig) (a : Active) (s t : State)
    → IsOnWay s a t
    → Told s (apply_from attempts serial now c a t)
unfolding apply_from
apply_from-Told [] serial now c a s t w = finished_err-Told s t c a _
apply_from-Told (attempt ∷ rest) serial now c a s t w = quiet w.tells

apply_with-Told :
    (serial : Option ℕ) (now : ℕ) (c : OutputConfig) (a : Active) (s t : State)
    → IsOnWay s a t
    → Told s (apply_with serial now c a t)
apply_with-Told none now c a s t w = quiet w.tells
apply_with-Told (some serial) now c a s t w = apply_from-Told a.attempts serial now c a s t w

advance_in-Told :
    (phase : Phase) (now : ℕ) (c : OutputConfig) (a : Active) (s t : State)
    → IsOnWay s a t
    → Told s (advance_in phase now c a t)
advance_in-Told phase now c a s t w = advanced phase
  where
    next : Told s (apply_with c.serial now c a t)
    next = apply_with-Told c.serial now c a s t w

    or_fail :
        (test : Bool) (reason : String) → Told s (if test then finished (err reason) c a t else t)
    or_fail true reason = finished_err-Told s t c a reason
    or_fail false reason = quiet w.tells

    or_next : (test : Bool) → Told s (if test then apply_with c.serial now c a t else t)
    or_next true = next
    or_next false = quiet w.tells

    advanced : (phase : Phase) → Told s (advance_in phase now c a t)
    advanced need_serial = elim (Bool-cases (is_some c.serial)) [
      | inl there ↦ rw there next
      | inr not_yet ↦ rw not_yet (or_fail (leb a.deadline now) _)
    ]
    advanced applying = or_fail (leb a.deadline now) _
    advanced settling = elim (Bool-cases (is_shown a.req t)) [
      | inl shown ↦ rw shown (finished_ok-Told s t (learned a.current c) a w shown)
      | inr other ↦ rw other (or_next (leb a.deadline now))
    ]
    advanced cancelled = elim (Bool-cases (is_newer c.serial a.serial_used)) [
      | inl newer ↦ rw newer next
      | inr same ↦ rw same (or_fail (leb a.deadline now) _)
    ]

pub dynres_advance-Told :
    (now : ℕ) (s t : State)
    → ((c : OutputConfig) (a : Active) → active_of t ≡ some (c, a) → IsOnWay s a t)
    → t.dynres.done ≡ s.dynres.done
    → Told s (dynres_advance now t)
unfolding dynres_advance
dynres_advance-Told now s t on_way tells =
    if_working_lem (Told s) (active_of t) t (λ c a. advance_in a.phase now c a t) (quiet tells)
      (λ c a e. advance_in-Told a.phase now c a s t (on_way c a e))

answered-Told :
    (answer : Answer) (now : ℕ) (c : OutputConfig) (a : Active) (s t : State)
    → IsOnWay s a t
    → Told s (answered answer now c a t)
answered-Told succeeded now c a s t w =
    let settled : Active = record a { phase = settling; deadline = now + settle_timeout } in
    elim (Bool-cases (is_shown a.req t)) [
      | inl shown ↦ rw shown (
          finished_ok-Told s t (learned a.current c) settled
            (record { asks = w.asks; tells = w.tells; looks = w.looks }) shown)
      | inr other ↦ rw other (quiet w.tells)
    ]
answered-Told failed now c a s t w =
    apply_with-Told c.serial now c a s (with_active a c t)
      (record { asks = w.asks; tells = w.tells; looks = w.looks })
answered-Told cancelled_answer now c a s t w =
    let b : Active = record a { cancels = suc a.cancels } in
    let retry : Active = record b {
      attempts = put_back a.current a.attempts;
      current = none;
      phase = cancelled;
      deadline = now + cancel_timeout;
    } in
    elim (Bool-cases (ltb max_cancelled (suc a.cancels))) [
      | inl over ↦ rw over (finished_err-Told s t c b _)
      | inr under ↦ rw under (
          advance_in-Told cancelled now c retry s (with_active retry c t)
            (record { asks = w.asks; tells = w.tells; looks = w.looks }))
    ]

-- The request at hand, of the state itself.
pub active_of-IsOnWay :
    (s : State) (c : OutputConfig) (a : Active) → active_of s ≡ some (c, a) → IsOnWay s a s
active_of-IsOnWay s c a e = record { asks = ap request_of e; tells = refl; looks = refl }

pub dynres_config_event-Told :
    (config : ℕ) (answer : Answer) (now : ℕ) (s : State)
    → Told s (dynres_config_event config answer now s)
unfolding dynres_config_event
dynres_config_event-Told config answer now s =
    let d : State = record s { destroyed = s.destroyed ++ (config ∷ []) } in
    if_working_lem (Told s) (active_of s) d
      (λ c a.
        if same_config a.config config
        then answered answer now c (record a { config = none }) d
        else d)
      (quiet refl)
      (λ c a e. elim (Bool-cases (same_config a.config config)) [
        | inr other ↦ rw other (quiet refl)
        | inl same ↦ rw same (
            answered-Told answer now c (record a { config = none }) s d
              (record { asks = ap request_of e; tells = refl; looks = refl }))
      ])
