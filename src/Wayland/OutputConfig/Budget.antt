-- ===== src/Wayland/OutputConfig/Budget.antt =====
-- How much is asked of the compositor: each request is tried a bounded number of times.
pub mod Taking
pub mod Answers
pub mod Steps
use xwlrvnc.Wayland.OutputConfig.{
  ℤ, Active, Attempt, Configuration, Head, OutputConfig, Phase, State, active_of, advance_in,
  apply_from, apply_with, applying, cancelled, configure, dynres_advance, finished, if_working_lem,
  is_newer, is_shown, learned, max_cancelled, need_serial, plan, settling,
}
use Prim.Native.String.{String}
use xwlrvnc.Dynres
use xwlrvnc.Base.Assoc
use xwlrvnc.Base.{
  ℕ, ◌+◌, ◌-◌, ◌*◌, ◌≤◌, ◌≡◌, refl, sym, ap, ◌∙◌, inl, inr, Bool, true, false, not, ◌&&◌, ◌||◌,
  Option, none, some, List, [], ◌∷◌, arith, ==_refl, Bool-cases, if◌then◌else◌, is_some, leb,
  length, length-append, rest,
}
use xwlrvnc.Wayland.OutputConfig.Events.{with_active}
use xwlrvnc.Dynres.{Outcome, complete, err, ok}

-- What is left to try of a request: the attempts, and the times that it may be cancelled.
abbrev pub chances : Active → ℕ
chances a = length a.attempts + (max_cancelled - a.cancels)

abbrev pub left_over : Option (OutputConfig × Active) → ℕ
left_over none = 0
left_over (some (c, a)) = chances a

abbrev pub at_hand : Option (OutputConfig × Active) → Option ℕ
at_hand none = none
at_hand (some (c, a)) = some a.req.id

abbrev pub is_before_serial : Phase → Bool
is_before_serial need_serial = true
is_before_serial _ = false

-- No configuration was sent for it.
abbrev pub is_untried : Active → Bool
is_untried a = is_before_serial a.phase && not (is_some a.config)

abbrev pub is_served : Option (OutputConfig × Active) → Bool
is_served none = true
is_served (some (c, a)) = is_untried a || is_some c.serial

-- At most six configurations were sent for each request that was taken, those still possible counted in; the
-- request in flight is the one at hand; and only one that was not tried yet lacks a serial.
pub record IsSound (s : State) : Type 0 where
  pub frugal : length s.applied + left_over (active_of s) ≤ 6 * s.taken
  pub linked : s.dynres.in_flight ≡ at_hand (active_of s)
  pub served : is_served (active_of s) ≡ true

pub length-plan-le :
    (head : Head) (w h refresh : ℤ) (zero_first : Bool)
    → length (plan head w h refresh zero_first) ≤ 3
unfolding plan
length-plan-le head w h refresh zero_first = ground arith

-- The same of a request that the state was left for.
pub record IsHeld (c : OutputConfig) (a : Active) (s : State) : Type 0 where
  pub budget : length s.applied + chances a ≤ 6 * s.taken
  pub flying : s.dynres.in_flight ≡ some a.req.id
  pub served : is_untried a || is_some c.serial ≡ true

pub finished-IsSound :
    (result : Outcome) (b c : OutputConfig) (a : Active) (s : State)
    → IsHeld c a s
    → IsSound (finished result b a s)
unfolding finished complete
finished-IsSound result b c a s h = ground (arith, ==_refl a.req.id)

pub with_active-IsSound :
    (c : OutputConfig) (a : Active) (s : State) → IsHeld c a s → IsSound (with_active a c s)
with_active-IsSound c a s h = record { frugal = h.budget; linked = h.flying; served = h.served }

apply_from-IsSound :
    (attempts : List Attempt) (serial now : ℕ) (c : OutputConfig) (a : Active) (s : State)
    → attempts ≡ a.attempts
    → c.serial ≡ some serial
    → IsHeld c a s
    → IsSound (apply_from attempts serial now c a s)
unfolding apply_from
apply_from-IsSound [] serial now c a s e has h = finished-IsSound _ c c a s h
apply_from-IsSound (attempt ∷ rest) serial now c a s e has h =
    let sent : List Configuration =
      record { config = s.next_config; serial = serial; requests = configure a attempt c.heads }
      ∷ [] in
    ground (arith, length-append s.applied sent, ap length e)

pub apply_with-IsSound :
    (serial : Option ℕ) (now : ℕ) (c : OutputConfig) (a : Active) (s : State)
    → c.serial ≡ serial
    → IsHeld c a s
    → IsSound s
    → IsSound (apply_with serial now c a s)
apply_with-IsSound none now c a s e h i = i
apply_with-IsSound (some serial) now c a s e h i =
    apply_from-IsSound a.attempts serial now c a s refl e h

pub advance_in-IsSound :
    (phase : Phase) (now : ℕ) (c : OutputConfig) (a : Active) (s : State)
    → IsHeld c a s
    → IsSound s
    → IsSound (advance_in phase now c a s)
advance_in-IsSound phase now c a s h i = advanced phase
  where
    next : IsSound (apply_with c.serial now c a s)
    next = apply_with-IsSound c.serial now c a s refl h i

    or_fail :
        (test : Bool) (reason : String) → IsSound (if test then finished (err reason) c a s else s)
    or_fail true reason = finished-IsSound (err reason) c c a s h
    or_fail false reason = i

    advanced : (phase : Phase) → IsSound (advance_in phase now c a s)
    advanced need_serial = elim (Bool-cases (is_some c.serial)) [
      | inl there ↦ rw there next
      | inr not_yet ↦ rw not_yet (or_fail (leb a.deadline now) _)
    ]
    advanced applying = or_fail (leb a.deadline now) _
    advanced settling = elim (Bool-cases (is_shown a.req s)) [
      | inl shown ↦ rw shown (finished-IsSound ok (learned a.current c) c a s h)
      | inr other ↦ rw other (ground (arith, next))
    ]
    advanced cancelled = elim (Bool-cases (is_newer c.serial a.serial_used)) [
      | inl newer ↦ rw newer next
      | inr same ↦ rw same (or_fail (leb a.deadline now) _)
    ]

pub active_of-IsHeld :
    (c : OutputConfig) (a : Active) (s : State)
    → IsSound s
    → active_of s ≡ some (c, a)
    → IsHeld c a s
active_of-IsHeld c a s i e = record {
  budget = ground (arith, i.frugal);
  flying = i.linked ∙ ap at_hand e;
  served = sym (ap is_served e) ∙ i.served;
}

pub dynres_advance-IsSound : (now : ℕ) (s : State) → IsSound s → IsSound (dynres_advance now s)
unfolding dynres_advance
dynres_advance-IsSound now s i =
    if_working_lem IsSound (active_of s) s (λ c a. advance_in a.phase now c a s) i
      (λ c a e. advance_in-IsSound a.phase now c a s (active_of-IsHeld c a s i e) i)
