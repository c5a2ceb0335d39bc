-- ===== src/Clip/Transitions/Echoes.antt =====
-- The announcements of our own publications that the compositor still owes.
use Prim.Native.String.{String}
use xwlrvnc.Base.{
  ℕ, ◌≤◌, ◌≡◌, ◌⊎◌, inl, inr, refl, sym, subst, Bool, true, false, List, [], ◌∷◌, ◌++◌, Option,
  none, some, is_some, arith, length, length-append, rest, leb, if◌then◌else◌,
}
use xwlrvnc.Clip.Types.{Sel, clipboard, primary, DataOffer, Bytes}
use xwlrvnc.Clip.State.{
  nobody, x, Echo, source, withdrawn, max_echoes, SelState, Clipboard, sel_of, put_sel, enter,
  take_echo, next_timestamp, changed_at,
}
use xwlrvnc.Clip.Transitions.{
  echo_of, pop_back_if, owed, publish, withdraw, supersede, wayland_announced, x_took, x_released,
  x_fetch_failed, x_owner_gone,
}
use xwlrvnc.Clip.Transitions.Calls.{
  Transition, announces, takes, releases, fetched, fetch_fails, owner_goes, queue_becomes, step,
  run,
}
use xwlrvnc.Clip.Transitions.Generation.{step-other}
use xwlrvnc.Clip.Transitions.Ownership.{x_fetched_cases, with_value, sel_of-put_sel}

-- At most sixteen announcements are remembered as owed, and none for a selection that the compositor's
-- device does not carry, of which nothing counts as published either.
pub record IsSettled (s : SelState) : Type 0 where
  pub within : length s.echoes ≤ max_echoes
  pub carried : (s.publishable ≡ true) ⊎ ((s.echoes ≡ []) × (s.published ≡ false))

length-pop_back_if : (e : Echo) (es : List Echo) → length (pop_back_if e es) ≤ length es
length-pop_back_if e [] = omega arith
length-pop_back_if e (d ∷ []) = ground arith
length-pop_back_if e (d ∷ f ∷ es) = omega (arith, length-pop_back_if e (f ∷ es))

length-owed :
    (v : Option Bytes) (s : SelState)
    → length s.echoes ≤ max_echoes
    → length (owed v s).echoes ≤ max_echoes
length-owed v s h = owed_from s.echoes h
  where
    owed_from :
        (es : List Echo)
        → length es ≤ max_echoes
        → length ((if leb max_echoes (length es) then rest es else es) ++ (echo_of v ∷ []))
          ≤ max_echoes
    owed_from [] h = omega arith
    owed_from (e ∷ es) h =
        ground (arith, length-append es (echo_of v ∷ []), length-append (e ∷ es) (echo_of v ∷ []))

publish-IsSettled :
    (sel : Sel) (v : Option Bytes) (now : ℕ) (c : Clipboard)
    → IsSettled (sel_of sel c)
    → IsSettled (sel_of sel (publish sel v now c))
unfolding publish
publish-IsSettled clipboard v now c i =
    ground
      (arith, length-owed v c.clip i.within, length-pop_back_if (echo_of v) (owed v c.clip).echoes)
publish-IsSettled primary v now c i =
    ground
      (arith, length-owed v c.prim i.within, length-pop_back_if (echo_of v) (owed v c.prim).echoes)

withdraw-IsSettled :
    (sel : Sel) (now : ℕ) (c : Clipboard)
    → IsSettled (sel_of sel c)
    → IsSettled (sel_of sel (withdraw sel now c))
unfolding withdraw
withdraw-IsSettled sel now c i = ground (arith, publish-IsSettled sel none now c i)

take_echo_from :
    (b : Bool) (mimes : List String) (s : SelState) (es : List Echo)
    → s.echoes ≡ es
    → IsSettled s
    → IsSettled (take_echo b mimes s).0
unfolding take_echo
take_echo_from b mimes s [] e i = ground arith
take_echo_from b mimes s (source ∷ es) e i = ground arith
take_echo_from b mimes s (withdrawn ∷ es) e i = ground arith

take_echo-IsSettled :
    (b : Bool) (mimes : List String) (s : SelState)
    → IsSettled s
    → IsSettled (take_echo b mimes s).0
take_echo-IsSettled b mimes s i = take_echo_from b mimes s s.echoes refl i

announced-IsSettled :
    (sel : Sel) (offer : Option DataOffer) (mimes : List String) (now : ℕ) (c : Clipboard)
    → IsSettled (sel_of sel c)
    → IsSettled (sel_of sel (wayland_announced sel offer mimes now c).0)
unfolding wayland_announced supersede next_timestamp
announced-IsSettled clipboard offer mimes now c i =
    ground (arith, take_echo-IsSettled (is_some offer) mimes c.clip i)
announced-IsSettled primary offer mimes now c i =
    ground (arith, take_echo-IsSettled (is_some offer) mimes c.prim i)

step-IsSettled_own :
    (c : Clipboard) (sel : Sel) (t : Transition)
    → IsSettled (sel_of sel c)
    → IsSettled (sel_of sel (step c (sel, t)))
unfolding step x_took x_released x_fetch_failed x_owner_gone changed_at
step-IsSettled_own c sel (announces offer mimes now) i = announced-IsSettled sel offer mimes now c i
step-IsSettled_own c clipboard (takes window client time now) i = ground arith
step-IsSettled_own c primary (takes window client time now) i = ground arith
step-IsSettled_own c clipboard (releases time now later) i = ground (
  arith,
  withdraw-IsSettled clipboard later
      (changed_at clipboard time (put_sel clipboard (enter nobody c.clip) c)),
)
step-IsSettled_own c primary (releases time now later) i = ground (
  arith,
  withdraw-IsSettled primary later
      (changed_at primary time (put_sel primary (enter nobody c.prim) c)),
)
step-IsSettled_own c sel (fetched window time bytes now later) i =
    elim (x_fetched_cases sel window time bytes now later c) [
      | inl e ↦ ground arith
      | inr (o, e, p) ↦
          let put =
            sel_of-put_sel sel
              (record (sel_of sel c) { owner = x (record o { value = some bytes }) }) c in
          ground (arith, put, publish-IsSettled sel (some bytes) now (with_value sel o bytes c))
    ]
step-IsSettled_own c sel (fetch_fails window time now later) i =
    ground (arith, withdraw-IsSettled sel now c i)
step-IsSettled_own c clipboard (owner_goes client window subtype now later) i =
    ground (arith, withdraw-IsSettled clipboard now (put_sel clipboard (enter nobody c.clip) c))
step-IsSettled_own c primary (owner_goes client window subtype now later) i =
    ground (arith, withdraw-IsSettled primary now (put_sel primary (enter nobody c.prim) c))
step-IsSettled_own c clipboard (queue_becomes jobs) i = i
step-IsSettled_own c primary (queue_becomes jobs) i = i

-- Both selections.
abbrev pub AllSettled : Clipboard → Type 0
AllSettled c = IsSettled c.clip × IsSettled c.prim

step-AllSettled : (c : Clipboard) (st : Sel × Transition) → AllSettled c → AllSettled (step c st)
step-AllSettled c (clipboard, t) i =
    (step-IsSettled_own c clipboard t i.0, subst IsSettled (sym (step-other c clipboard t)) i.1)
step-AllSettled c (primary, t) i =
    (subst IsSettled (sym (step-other c primary t)) i.0, step-IsSettled_own c primary t i.1)

-- If the announcements owed are within sixteen on each selection, and a selection that the
-- device does not carry is owed none and has nothing published, it stays so whatever transitions follow.
pub run-AllSettled :
    (c : Clipboard) (ts : List (Sel × Transition)) → AllSettled c → AllSettled (run c ts)
unfolding run
run-AllSettled c [] i = i
run-AllSettled c (t ∷ ts) i = run-AllSettled (step c t) ts (step-AllSettled c t i)
