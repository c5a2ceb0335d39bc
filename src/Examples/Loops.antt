-- ===== src/Examples/Loops.antt =====
-- A concrete run of the Wayland thread.
use xwlrvnc.Base.{◌≡◌, true, false, ◌&&◌, none, some, List, [], ◌∷◌, if◌then◌else◌}
use xwlrvnc.Wayland.DataControl.Loop.Settled.{posted, run-settled, settled}
use xwlrvnc.Wayland.DataControl.Loop.Calls.{
  Event, begins, calls, offers_id, offers_mime, posts, run, runs_jobs, selects,
}
use xwlrvnc.Wayland.DataControl.Loop.Offers.{offer_all, update_selection-offer_all}
use xwlrvnc.Wayland.DataControl.Loop.{data_offer, id_of, is_primary, new, ready, update_selection}
use xwlrvnc.Base.Assoc.{get}
use xwlrvnc.Clip.Types.{DataOffer, clipboard, primary, receive}
use xwlrvnc.Clip.State.{sel_of}
use xwlrvnc.Clip.Transitions.{wayland_announced}
use Prim.Native.String.{String}

abbrev text : List String
text = "text/plain" ∷ "UTF8_STRING" ∷ []

-- A Wayland application takes the clipboard, an X client asks for its value, and the loop starts to read.
abbrev events : List Event
events =
    begins
    ∷ offers_id 3
    ∷ offers_mime 3 "text/plain"
    ∷ selects clipboard (some (DataOffer.ext 3)) 10
    ∷ calls (posts 20 (receive clipboard "text/plain" 1 20 4))
    ∷ runs_jobs (λ conversion. ready 7) 21
    ∷ []

run-settled_example : settled 4 (run (new false) events) ≡ posted 4 events
run-settled_example = run-settled false 4 events

update_selection-offer_all_example :
    (let t =
        offer_all
          (id_of (DataOffer.ext 3))
          text
          (data_offer (id_of (DataOffer.ext 3)) (new true)) in
      let u = (update_selection primary (some (DataOffer.ext 3)) 50 t).0 in
      (get (id_of (DataOffer.ext 3)) u.offer_mimes ≡ none)
      × (sel_of primary u.clipboard ≡ (
          if is_primary primary && (new true).noprimary
          then sel_of primary (new true).clipboard
          else sel_of primary
              (wayland_announced primary (some (DataOffer.ext 3)) text 50 (new true).clipboard).0)))
update_selection-offer_all_example =
    update_selection-offer_all primary (DataOffer.ext 3) text 50 (new true)
