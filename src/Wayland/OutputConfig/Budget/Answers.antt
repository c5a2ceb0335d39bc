-- ===== src/Wayland/OutputConfig/Budget/Answers.antt =====
-- The compositor's answers keep what is said of the state in the module above.
use xwlrvnc.Base.{
  ℕ, suc, ◌+◌, ◌≤◌, ◌≡◌, refl, inl, inr, true, ◌||◌, Option, none, some, List, [], ◌∷◌, ◌++◌, arith,
  Bool-cases, if◌then◌else◌, is_some, ltb, length,
}
use xwlrvnc.Wayland.OutputConfig.Budget.{
  IsHeld, IsSound, advance_in-IsSound, apply_with-IsSound, finished-IsSound, active_of-IsHeld,
  is_untried, with_active-IsSound,
}
use xwlrvnc.Wayland.OutputConfig.Events.{
  Answer, answered, cancelled_answer, dynres_config_event, failed, put_back, same_config, succeeded,
  with_active,
}
use xwlrvnc.Wayland.OutputConfig.{
  Active, Attempt, OutputConfig, State, active_of, cancel_timeout, cancelled, if_working_lem,
  is_shown, learned, max_cancelled, settle_timeout, settling,
}
use xwlrvnc.Dynres.{err, ok}

length-put_back-le :
    (current : Option Attempt) (attempts : List Attempt)
    → length (put_back current attempts) ≤ suc (length attempts)
length-put_back-le none attempts = omega arith
length-put_back-le (some attempt) attempts = omega arith

answered-IsSound :
    (answer : Answer) (now : ℕ) (c : OutputConfig) (a : Active) (s : State)
    → IsHeld c a s
    → is_some c.serial ≡ true
    → IsSound (answered answer now c a s)
answered-IsSound succeeded now c a s h has =
    let settled : Active = record a { phase = settling; deadline = now + settle_timeout } in
    let k : IsHeld c settled s = record { budget = h.budget; flying = h.flying; served = has } in
    elim (Bool-cases (is_shown a.req s)) [
      | inl shown ↦ rw shown (finished-IsSound ok (learned a.current c) c settled s k)
      | inr other ↦ rw other (with_active-IsSound c settled s k)
    ]
answered-IsSound failed now c a s h has =
    let k : IsHeld c a (with_active a c s) = record {
      budget = h.budget;
      flying = h.flying;
      served = h.served;
    } in
    apply_with-IsSound c.serial now c a (with_active a c s) refl k (with_active-IsSound c a s h)
answered-IsSound cancelled_answer now c a s h has =
    let b : Active = record a { cancels = suc a.cancels } in
    let retry : Active = record b {
      attempts = put_back a.current a.attempts;
      current = none;
      phase = cancelled;
      deadline = now + cancel_timeout;
    } in
    let one_more = length-put_back-le a.current a.attempts in
    elim (Bool-cases (ltb max_cancelled (suc a.cancels))) [
      | inl over ↦ rw over (
          finished-IsSound (err "the compositor kept cancelling the configuration") c c b s
            (record { budget = ground (arith, h.budget); flying = h.flying; served = h.served }))
      | inr under ↦
          let k : IsHeld c retry s = record {
            budget = ground (arith, h.budget);
            flying = h.flying;
            served = has;
          } in
          rw under (
            advance_in-IsSound cancelled now c retry (with_active retry c s)
              (record { budget = k.budget; flying = k.flying; served = k.served })
              (with_active-IsSound c retry s k))
    ]

has_serial :
    (c : OutputConfig) (a : Active) (config : ℕ)
    → same_config a.config config ≡ true
    → is_untried a || is_some c.serial ≡ true
    → is_some c.serial ≡ true
has_serial c a config same served = ground arith

pub dynres_config_event-IsSound :
    (config : ℕ) (answer : Answer) (now : ℕ) (s : State)
    → IsSound s
    → IsSound (dynres_config_event config answer now s)
unfolding dynres_config_event
dynres_config_event-IsSound config answer now s i =
    let d : State = record s { destroyed = s.destroyed ++ (config ∷ []) } in
    let j : IsSound d = record { frugal = i.frugal; linked = i.linked; served = i.served } in
    if_working_lem IsSound (active_of s) d
      (λ c a.
        if same_config a.config config
        then answered answer now c (record a { config = none }) d
        else d)
      j
      (λ c a e.
        let h = active_of-IsHeld c a s i e in
        elim (Bool-cases (same_config a.config config)) [
          | inr other ↦ rw other j
          | inl same ↦
              let has = has_serial c a config same h.served in
              rw same (
                answered-IsSound answer now c (record a { config = none }) d
                  (record { budget = h.budget; flying = h.flying; served = ground (arith, has) })
                  has)
        ])
