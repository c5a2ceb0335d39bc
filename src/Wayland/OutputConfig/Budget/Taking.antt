-- ===== src/Wayland/OutputConfig/Budget/Taking.antt =====
-- A request taken up keeps what is said of the state in the module above.
-- What `Dynres.take` does to the request in flight.
use xwlrvnc.Wayland.OutputConfig.{
  String, Active, Head, OutputConfig, State, active_of, head_named, if_managed_lem,
}
use xwlrvnc.Dynres
use xwlrvnc.Base.Assoc
use xwlrvnc.Base.{
  ℕ, ◌≡◌, refl, sym, ◌∙◌, inl, inr, false, Option, none, some, List, arith, ==_refl, Bool-cases,
  Option-cases, if◌then◌else◌, is_some,
}
use xwlrvnc.Wayland.OutputConfig.Budget.{IsSound, at_hand, length-plan-le}
use xwlrvnc.Wayland.OutputConfig.Events.{
  asked, dynres_start, mode_size, pick_up, refuse_all, take_up,
}
use xwlrvnc.Dynres.{DynRes, ModeRequest, busy, complete}

abbrev IsTaken : DynRes → DynRes → Option ModeRequest → Type 0
IsTaken d e none = e.in_flight ≡ d.in_flight
IsTaken d e (some req) = (d.in_flight ≡ none) × (e.in_flight ≡ some req.id)

take-IsTaken : (d : DynRes) → IsTaken d (Dynres.take d).0 (Dynres.take d).1
unfolding Dynres.take
take-IsTaken d = from d.in_flight d.queued refl refl
  where
    from :
        (flying : Option ℕ) (queued : Option ModeRequest)
        → d.in_flight ≡ flying
        → d.queued ≡ queued
        → IsTaken d (Dynres.take d).0 (Dynres.take d).1
    from (some id) queued e f = simp (e)
    from none none e f = simp (e, f)
    from none (some req) e f = simp (e, f) (refl, refl)

idle_of : (w : Option (OutputConfig × Active)) → at_hand w ≡ none → w ≡ none
idle_of none h = refl
idle_of (some (c, a)) h = cc

-- While no request is at hand, whatever is spent was spent before.
taken_up-IsSound :
    (describe : List ℕ → List Head → String) (req : Option ModeRequest) (d : DynRes) (now : ℕ)
    (c : OutputConfig) (s : State)
    → s.output_config ≡ some c
    → is_some c.active ≡ false
    → IsTaken s.dynres d req
    → IsSound s
    → IsSound (take_up describe req now c (asked d req s))
unfolding dynres_start complete
taken_up-IsSound describe none d now c s e f t i = ground (arith, i.frugal, i.linked, i.served, t)
taken_up-IsSound describe (some req) d now c s e f t i =
    let idle = idle_of (active_of s) (sym i.linked ∙ t.0) in
    elim (Option-cases (Assoc.get req.wl_name s.outputs)) [
      | inl gone ↦ ground (arith, i.frugal, ==_refl req.id)
      | inr (acc, found) ↦ elim (Option-cases (head_named acc.name c.heads)) [
        | inl nameless ↦ ground (arith, i.frugal, ==_refl req.id)
        | inr (head, named) ↦
            let (w, h) = mode_size acc req in
            let three = length-plan-le head w h acc.refresh_mhz c.zero_refresh_first in
            ground (arith, i.frugal)
      ]
    ]

refused-IsSound :
    (req : Option ModeRequest) (d : DynRes) (s : State)
    → IsTaken s.dynres d req
    → IsSound s
    → IsSound (refuse_all req (asked d req s))
unfolding complete
refused-IsSound none d s t i = record {
  frugal = i.frugal;
  linked = t ∙ i.linked;
  served = i.served;
}
refused-IsSound (some req) d s t i =
    let idle = idle_of (active_of s) (sym i.linked ∙ t.0) in
    ground (arith, i.frugal, ==_refl req.id)

pub pick_up-IsSound :
    (describe : List ℕ → List Head → String) (now : ℕ) (s : State)
    → IsSound s
    → IsSound (pick_up describe now s)
unfolding pick_up
pick_up-IsSound describe now s i =
    let (d, req) = Dynres.take s.dynres in
    let t = take-IsTaken s.dynres in
    if_managed_lem IsSound s.output_config (refuse_all req (asked d req s))
      (λ c. if is_some c.active then s else take_up describe req now c (asked d req s))
      (refused-IsSound req d s t i)
      (λ c e. elim (Bool-cases (is_some c.active)) [
        | inl busy ↦ rw busy i
        | inr free ↦ rw free (taken_up-IsSound describe req d now c s e free t i)
      ])
