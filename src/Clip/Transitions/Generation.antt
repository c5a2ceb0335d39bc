-- ===== src/Clip/Transitions/Generation.antt =====
-- The ownership generation: work prepared for one owner is not carried out on another.
use Prim.Native.String.{String}
use xwlrvnc.Base.{
  ℕ, suc, ◌+◌, ◌%◌, ◌≤◌, ◌<◌, ◌≡◌, ◌⊎◌, inl, inr, refl, sym, ◌∙◌, Bool, true, false, ◌==◌, List, [],
  ◌∷◌, Option, none, some, is_some, arith, length,
}
use xwlrvnc.Base.Word.{u64_mod}
use xwlrvnc.Clip.Types.{Sel, clipboard, primary, DataOffer, Bytes}
use xwlrvnc.Clip.State.{
  Owner, nobody, wayland, x, SelState, Clipboard, sel_of, put_sel, enter, take_echo, next_timestamp,
  changed_at, convertible, offer_at, owner_mimes, offer_of,
}
use xwlrvnc.Clip.Transitions.{
  SelectionEvent, publish, withdraw, supersede, wayland_announced, x_took, x_released, x_fetched,
  x_fetch_failed, x_owner_gone,
}
use xwlrvnc.Clip.Transitions.Calls.{
  Transition, announces, takes, releases, fetched, fetch_fails, owner_goes, queue_becomes, step,
  run,
}
use xwlrvnc.Clip.Transitions.Ownership.{
  publish_frame, withdraw_frame, x_fetched_cases, with_value, sel_of-put_sel,
}

abbrev pub other : Sel → Sel
other clipboard = primary
other primary = clipboard

publish-other :
    (sel : Sel) (v : Option Bytes) (now : ℕ) (c : Clipboard)
    → sel_of (other sel) (publish sel v now c) ≡ sel_of (other sel) c
unfolding publish
publish-other clipboard v now c = ground arith
publish-other primary v now c = ground arith

withdraw-other :
    (sel : Sel) (now : ℕ) (c : Clipboard)
    → sel_of (other sel) (withdraw sel now c) ≡ sel_of (other sel) c
unfolding withdraw
withdraw-other sel now c = ground (arith, publish-other sel none now c)

-- A transition on one selection leaves the other as it was.
pub step-other :
    (c : Clipboard) (sel : Sel) (t : Transition)
    → sel_of (other sel) (step c (sel, t)) ≡ sel_of (other sel) c
unfolding step wayland_announced supersede next_timestamp x_took x_released x_fetched x_fetch_failed
    x_owner_gone changed_at
step-other c clipboard (announces offer mimes now) = ground arith
step-other c primary (announces offer mimes now) = ground arith
step-other c clipboard (takes window client time now) = ground arith
step-other c primary (takes window client time now) = ground arith
step-other c clipboard (releases time now later) = ground (
  arith,
  withdraw-other clipboard later
      (changed_at clipboard time (put_sel clipboard (enter nobody c.clip) c)),
)
step-other c primary (releases time now later) = ground (
  arith,
  withdraw-other primary later (changed_at primary time (put_sel primary (enter nobody c.prim) c)),
)
step-other c clipboard (fetched window time bytes now later) =
    elim (x_fetched_cases clipboard window time bytes now later c) [
      | inl e ↦ ground arith
      | inr (o, e, p) ↦
          ground
            (arith, p, publish-other clipboard (some bytes) now (with_value clipboard o bytes c))
    ]
step-other c primary (fetched window time bytes now later) =
    elim (x_fetched_cases primary window time bytes now later c) [
      | inl e ↦ ground arith
      | inr (o, e, p) ↦
          ground (arith, p, publish-other primary (some bytes) now (with_value primary o bytes c))
    ]
step-other c sel (fetch_fails window time now later) = ground (arith, withdraw-other sel now c)
step-other c clipboard (owner_goes client window subtype now later) =
    ground (arith, withdraw-other clipboard now (put_sel clipboard (enter nobody c.clip) c))
step-other c primary (owner_goes client window subtype now later) =
    ground (arith, withdraw-other primary now (put_sel primary (enter nobody c.prim) c))
step-other c clipboard (queue_becomes jobs) = refl
step-other c primary (queue_becomes jobs) = refl

-- The offer of a Wayland app that owns a selection, and the mime types that it was announced with.
abbrev pub offered : Owner → Option (DataOffer × List String)
offered (wayland offer mimes) = some (offer, mimes)
offered _ = none

-- The generation is kept with the Wayland app's offer and mime types, or goes one up.
abbrev pub Follows : SelState → SelState → Type 0
Follows s t =
    ((t.generation ≡ s.generation) × (offered t.owner ≡ offered s.owner))
    ⊎ (t.generation ≡ (s.generation + 1) % u64_mod)

take_echo_frame :
    (b : Bool) (mimes : List String) (s : SelState)
    → ((take_echo b mimes s).0.owner ≡ s.owner)
      × ((take_echo b mimes s).0.generation ≡ s.generation)
unfolding take_echo
take_echo_frame b mimes s = ground arith

announced-Follows :
    (sel : Sel) (offer : Option DataOffer) (mimes : List String) (now : ℕ) (c : Clipboard)
    → Follows (sel_of sel c) (sel_of sel (wayland_announced sel offer mimes now c).0)
unfolding wayland_announced supersede next_timestamp
announced-Follows clipboard offer mimes now c =
    ground (arith, take_echo_frame (is_some offer) mimes c.clip)
announced-Follows primary offer mimes now c =
    ground (arith, take_echo_frame (is_some offer) mimes c.prim)

released-Follows :
    (sel : Sel) (time now later : ℕ) (c : Clipboard)
    → Follows (sel_of sel c) (sel_of sel (x_released sel time now later c).0)
unfolding x_released changed_at
released-Follows clipboard time now later c = ground (
  arith,
  withdraw_frame clipboard later
      (changed_at clipboard time (put_sel clipboard (enter nobody c.clip) c)),
)
released-Follows primary time now later c = ground (
  arith,
  withdraw_frame primary later (changed_at primary time (put_sel primary (enter nobody c.prim) c)),
)

fetched-Follows :
    (sel : Sel) (window time : ℕ) (bytes : Bytes) (now later : ℕ) (c : Clipboard)
    → Follows (sel_of sel c) (sel_of sel (x_fetched sel window time bytes now later c).0)
fetched-Follows sel window time bytes now later c =
    elim (x_fetched_cases sel window time bytes now later c) [
      | inl e ↦ ground arith
      | inr (o, e, p) ↦
          let framed = publish_frame sel (some bytes) now (with_value sel o bytes c) in
          let put =
            sel_of-put_sel sel
              (record (sel_of sel c) { owner = x (record o { value = some bytes }) }) c in
          inl (ground (arith, framed, put), ground (arith, framed, put))
    ]

gone-Follows :
    (sel : Sel) (client : ℕ) (window : Option ℕ) (subtype : SelectionEvent) (now later : ℕ)
    (c : Clipboard)
    → Follows (sel_of sel c) (sel_of sel (x_owner_gone sel client window subtype now later c).0)
unfolding x_owner_gone
gone-Follows sel client window subtype now later c = ground (
  arith,
  withdraw_frame sel now (put_sel sel (enter nobody (sel_of sel c)) c),
  sel_of-put_sel sel (enter nobody (sel_of sel c)) c,
)

step-Follows :
    (c : Clipboard) (sel : Sel) (t : Transition)
    → Follows (sel_of sel c) (sel_of sel (step c (sel, t)))
unfolding step x_took x_fetch_failed changed_at
step-Follows c sel (announces offer mimes now) = announced-Follows sel offer mimes now c
step-Follows c clipboard (takes window client time now) = ground arith
step-Follows c primary (takes window client time now) = ground arith
step-Follows c sel (releases time now later) = released-Follows sel time now later c
step-Follows c sel (fetched window time bytes now later) =
    fetched-Follows sel window time bytes now later c
step-Follows c sel (fetch_fails window time now later) = ground (arith, withdraw_frame sel now c)
step-Follows c sel (owner_goes client window subtype now later) =
    gone-Follows sel client window subtype now later c
step-Follows c clipboard (queue_becomes jobs) = inl (refl, refl)
step-Follows c primary (queue_becomes jobs) = inl (refl, refl)

step-Follows_any :
    (c : Clipboard) (sel : Sel) (st : Sel × Transition)
    → Follows (sel_of sel c) (sel_of sel (step c st))
step-Follows_any c clipboard (clipboard, t) = step-Follows c clipboard t
step-Follows_any c primary (primary, t) = step-Follows c primary t
step-Follows_any c clipboard (primary, t) = ground (arith, step-other c primary t)
step-Follows_any c primary (clipboard, t) = ground (arith, step-other c clipboard t)

-- After `k` changes of owner, with the Wayland app's offer as it was if `k` is 0.
abbrev pub Advanced : ℕ → SelState → SelState → Type 0
Advanced k s t =
    (t.generation ≡ (s.generation + k) % u64_mod) × ((0 < k) ⊎ (offered t.owner ≡ offered s.owner))

run-Advanced :
    (c : Clipboard) (sel : Sel) (ts : List (Sel × Transition))
    → (sel_of sel c).generation < u64_mod
    → (k : ℕ) × (k ≤ length ts) × Advanced k (sel_of sel c) (sel_of sel (run c ts))
unfolding run
run-Advanced c sel [] h = (0, omega arith, (omega arith, inr refl))
run-Advanced c sel (t ∷ ts) h = elim (step-Follows_any c sel t) [
  | inl (g, o) ↦
      let (k, le, adv) = run-Advanced (step c t) sel ts (omega arith) in
      (k, omega arith, (ground (arith, adv.0), ground (arith, adv.1)))
  | inr g ↦
      let (k, le, adv) = run-Advanced (step c t) sel ts (omega arith) in
      (suc k, omega arith, (omega (arith, adv.0), inl (omega arith)))
]

offered_wayland :
    (o : Owner) (offer : DataOffer) (mimes : List String)
    → offered o ≡ some (offer, mimes)
    → (o ≡ wayland offer (owner_mimes o))
offered_wayland nobody offer mimes h = cc
offered_wayland (wayland d ms) offer mimes h = ground arith
offered_wayland (x o) offer mimes h = cc

offer_of-offered :
    (o : Owner) (b : Bool) (offer : DataOffer)
    → offer_of o b ≡ some offer
    → (mimes : List String) × (b ≡ true) × (offered o ≡ some (offer, mimes))
offer_of-offered nobody b offer h = cc
offer_of-offered (wayland d ms) true offer h = (ms, refl, ground arith)
offer_of-offered (wayland d ms) false offer h = cc
offer_of-offered (x o) b offer h = cc

-- A conversion prepared when `convertible` answered with some mime types and a generation is served by an
-- offer, after any fewer than 2 ^ 64 transitions on either selection, only if that offer is the one that a
-- Wayland app owned the selection with at that time, announced with those very mime types.
pub offer_at-convertible :
    (c : Clipboard) (sel : Sel) (ts : List (Sel × Transition)) (offer : DataOffer)
    → (sel_of sel c).generation < u64_mod
    → length ts < u64_mod
    → offer_at sel (convertible sel c).1 (run c ts) ≡ some offer
    → (sel_of sel c).owner ≡ wayland offer (convertible sel c).0
unfolding offer_at convertible
offer_at-convertible c sel ts offer h len found =
    let (k, le, adv) = run-Advanced c sel ts h in
    let (mimes, same_generation, now) =
      offer_of-offered (sel_of sel (run c ts)).owner
        ((sel_of sel (run c ts)).generation == (sel_of sel c).generation) offer found in
    let unchanged : offered (sel_of sel (run c ts)).owner ≡ offered (sel_of sel c).owner =
      elim adv.1 [
        | inl pos ↦ absurd (
            let e : (sel_of sel (run c ts)).generation ≡ (sel_of sel c).generation = ground arith in
            omega (arith, adv.0))
        | inr kept ↦ kept
      ] in
    offered_wayland (sel_of sel c).owner offer mimes (sym unchanged ∙ now)
