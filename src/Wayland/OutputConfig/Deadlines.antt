-- ===== src/Wayland/OutputConfig/Deadlines.antt =====
-- What becomes of a request when the compositor says nothing more.

use xwlrvnc.Base.{
  ℕ, ◌+◌, ◌≤◌, ◌≡◌, refl, ap, ◌∙◌, inl, inr, Bool, true, false, ◌||◌, Option, none, some, List, [],
  ◌∷◌, arith, Bool-cases, Option-cases, is_some, leb, rest,
}
use xwlrvnc.Wayland.OutputConfig.Budget.{
  IsSound, at_hand, dynres_advance-IsSound, active_of-IsHeld, is_before_serial, is_untried,
}
use xwlrvnc.Wayland.OutputConfig.{
  Active, Attempt, OutputConfig, Phase, State, active_of, advance_in, apply_from, apply_with,
  applying, cancelled, dynres_advance, finished, is_newer, is_shown, need_serial, settling,
}

-- The deadline of the request at hand, 0 with none.
abbrev pub deadline_of : Option (OutputConfig × Active) → ℕ
deadline_of none = 0
deadline_of (some (c, a)) = a.deadline

-- `dynres_advance`, late by `delay`.
abbrev pub late : ℕ → State → State
late delay s = dynres_advance (deadline_of (active_of s) + delay) s

abbrev pub is_applying : Option (OutputConfig × Active) → Bool
is_applying none = true
is_applying (some (c, a)) = elim a.phase [ applying ↦ true | _ ↦ false ]

-- No request, or one whose configuration is not answered yet.
abbrev pub IsWaiting : State → Type 0
IsWaiting s = is_applying (active_of s) ≡ true

apply_from-IsWaiting :
    (attempts : List Attempt) (serial now : ℕ) (c : OutputConfig) (a : Active) (s : State)
    → IsWaiting (apply_from attempts serial now c a s)
unfolding apply_from finished
apply_from-IsWaiting [] serial now c a s = refl
apply_from-IsWaiting (attempt ∷ rest) serial now c a s = refl

apply_with-IsWaiting :
    (serial : Option ℕ) (now : ℕ) (c : OutputConfig) (a : Active) (s : State)
    → is_some serial ≡ true
    → IsWaiting (apply_with serial now c a s)
apply_with-IsWaiting none now c a s h = cc
apply_with-IsWaiting (some serial) now c a s h = apply_from-IsWaiting a.attempts serial now c a s

serial_of :
    (phase : Phase) (c : OutputConfig) (a : Active)
    → a.phase ≡ phase
    → is_untried a || is_some c.serial ≡ true
    → is_before_serial phase || is_some c.serial ≡ true
serial_of phase c a e h = ground arith

advance_in-IsWaiting :
    (phase : Phase) (now : ℕ) (c : OutputConfig) (a : Active) (s : State)
    → active_of s ≡ some (c, a)
    → a.phase ≡ phase
    → a.deadline ≤ now
    → is_before_serial phase || is_some c.serial ≡ true
    → IsWaiting (advance_in phase now c a s)
unfolding finished
advance_in-IsWaiting need_serial now c a s w e d h = elim (Bool-cases (is_some c.serial)) [
  | inl there ↦ rw there (apply_with-IsWaiting c.serial now c a s there)
  | inr not_yet ↦ let over : leb a.deadline now ≡ true = ground arith in rw (not_yet, over) refl
]
advance_in-IsWaiting applying now c a s w e d h =
    let over : leb a.deadline now ≡ true = ground arith in rw over refl
advance_in-IsWaiting settling now c a s w e d h =
    let over : leb a.deadline now ≡ true = ground arith in
    elim (Bool-cases (is_shown a.req s)) [
      | inl shown ↦ rw shown refl
      | inr other ↦ rw (other, over) (apply_with-IsWaiting c.serial now c a s h)
    ]
advance_in-IsWaiting cancelled now c a s w e d h =
    let over : leb a.deadline now ≡ true = ground arith in
    elim (Bool-cases (is_newer c.serial a.serial_used)) [
      | inl newer ↦ rw newer (apply_with-IsWaiting c.serial now c a s h)
      | inr same ↦ rw (same, over) refl
    ]

late-IsWaiting : (delay : ℕ) (s : State) → IsSound s → IsWaiting (late delay s)
unfolding dynres_advance
late-IsWaiting delay s i = elim (Option-cases (active_of s)) [
  | inl idle ↦ simp (idle)
  | inr (w, e) ↦
      let (c, a) = w in
      let h = active_of-IsHeld c a s i e in
      simp (e) (
        advance_in-IsWaiting a.phase (a.deadline + delay) c a s e refl (ground arith)
          (serial_of a.phase c a refl h.served))
]

late_ends : (delay : ℕ) (s : State) → IsWaiting s → active_of (late delay s) ≡ none
unfolding dynres_advance finished
late_ends delay s waiting = elim (Option-cases (active_of s)) [
  | inl idle ↦ simp (idle)
  | inr (w, e) ↦
      let (c, a) = w in
      let same : a.phase ≡ applying = ground arith in
      let over : leb a.deadline (a.deadline + delay) ≡ true = ground arith in
      simp (e, same, over) refl
]

-- If the compositor falls silent with a request at any stage, two more calls of `dynres_advance`,
-- each at the deadline of the moment or later by any delay, leave no request at hand, and none in
-- flight at `dynres`: the next one can be taken up. The state is sound, as each step leaves it.
pub silence_ends :
    (first second : ℕ) (s : State)
    → IsSound s
    → (active_of (late second (late first s)) ≡ none)
      × ((late second (late first s)).dynres.in_flight ≡ none)
silence_ends first second s i =
    let ends = late_ends second (late first s) (late-IsWaiting first s i) in
    let sound = dynres_advance-IsSound _ (late first s) (dynres_advance-IsSound _ s i) in
    (ends, sound.linked ∙ ap at_hand ends)
