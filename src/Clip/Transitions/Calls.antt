-- ===== src/Clip/Transitions/Calls.antt =====
-- Any sequence of transitions by the X threads and the Wayland thread, and of changes that the job
-- queue's own methods make to it.
use Prim.Native.String.{String}
use xwlrvnc.Base.{ℕ, List, [], ◌∷◌, Option}
use xwlrvnc.Clip.Types.{Sel, DataOffer, Bytes}
use xwlrvnc.Clip.Jobs.{Jobs}
use xwlrvnc.Clip.State.{Clipboard}
use xwlrvnc.Clip.Transitions.{
  SelectionEvent, wayland_announced, x_took, x_released, x_fetched, x_fetch_failed, x_owner_gone,
}

-- Each with its readings of the clock.
pub data Transition : Type 0 where
  announces : Option DataOffer → List String → ℕ → Transition
  takes : (window client time now : ℕ) → Transition
  releases : (time now later : ℕ) → Transition
  fetched : (window time : ℕ) → Bytes → (now later : ℕ) → Transition
  fetch_fails : (window time now later : ℕ) → Transition
  owner_goes : ℕ → Option ℕ → SelectionEvent → (now later : ℕ) → Transition
  queue_becomes : Jobs → Transition

unfoldable pub step : Clipboard → Sel × Transition → Clipboard
step c (sel, announces offer mimes now) = (wayland_announced sel offer mimes now c).0
step c (sel, takes window client time now) = (x_took sel window client time now c).0
step c (sel, releases time now later) = (x_released sel time now later c).0
step c (sel, fetched window time bytes now later) = (x_fetched sel window time bytes now later c).0
step c (sel, fetch_fails window time now later) = (x_fetch_failed sel window time now later c).0
step c (sel, owner_goes client window subtype now later) =
    (x_owner_gone sel client window subtype now later c).0
step c (sel, queue_becomes jobs) = record c { jobs = jobs }

unfoldable pub run : Clipboard → List (Sel × Transition) → Clipboard
run c [] = c
run c (t ∷ ts) = run (step c t) ts
