-- ===== src/Wayland/DataControl/Loop/Offers.antt =====
-- The types of an offer, collected from its events until a selection event takes it.
use Prim.Native.String.{String}
use mathlib.Core.List.{append-nil, append_assoc}
use xwlrvnc.Base.{
  ℕ, ◌≡◌, refl, ◌&&◌, none, some, List, [], ◌∷◌, ◌++◌, arith, ==_refl, if◌then◌else◌,
}
use xwlrvnc.Base.Assoc.{get, get-insert, get-remove, remove}
use xwlrvnc.Clip.Types.{DataOffer, Sel, clipboard, primary}
use xwlrvnc.Clip.State.{sel_of}
use xwlrvnc.Clip.Transitions.{wayland_announced}
use xwlrvnc.Wayland.DataControl.Loop.{
  State, apply_destroy, data_offer, id_of, is_primary, offer_event, update_selection,
}

-- The events that announce an offer and its types, in order.
abbrev pub offer_all : ℕ → List String → State → State
offer_all id [] s = s
offer_all id (mime ∷ mimes) s = offer_all id mimes (offer_event id mime s)

offer_all-get :
    (id : ℕ) (before mimes : List String) (s : State)
    → get id s.offer_mimes ≡ some before
    → get id (offer_all id mimes s).offer_mimes ≡ some (before ++ mimes)
unfolding offer_event
offer_all-get id before [] s h = ground (arith, append-nil before)
offer_all-get id before (mime ∷ mimes) s h = ground (
  arith,
  append_assoc before (mime ∷ []) mimes,
  get-insert id id (before ++ (mime ∷ [])) s.offer_mimes,
  offer_all-get id (before ++ (mime ∷ [])) mimes (offer_event id mime s),
  ==_refl id,
)

offer_all_frame :
    (id : ℕ) (mimes : List String) (s : State)
    → ((offer_all id mimes s).clipboard ≡ s.clipboard)
      × ((offer_all id mimes s).noprimary ≡ s.noprimary)
unfolding offer_event
offer_all_frame id [] s = (refl, refl)
offer_all_frame id (mime ∷ mimes) s = offer_all_frame id mimes (offer_event id mime s)

apply_destroy_frame :
    (now : ℕ) (os : List DataOffer) (s : State)
    → ((apply_destroy now os s).offer_mimes ≡ s.offer_mimes)
      × ((apply_destroy now os s).clipboard.clip ≡ s.clipboard.clip)
      × ((apply_destroy now os s).clipboard.prim ≡ s.clipboard.prim)
unfolding apply_destroy
apply_destroy_frame now [] s = (refl, refl, refl)
apply_destroy_frame now (o ∷ os) s = ground arith

update_selection_from :
    (sel : Sel) (offer : DataOffer) (mimes : List String) (now : ℕ) (s : State)
    → get (id_of offer) s.offer_mimes ≡ some mimes
    → (let u = (update_selection sel (some offer) now s).0 in
        (get (id_of offer) u.offer_mimes ≡ none)
        × (sel_of sel u.clipboard ≡ (
            if is_primary sel && s.noprimary
            then sel_of sel s.clipboard
            else sel_of sel (wayland_announced sel (some offer) mimes now s.clipboard).0)))
unfolding update_selection
update_selection_from clipboard offer mimes now s h =
    let t = record s { offer_mimes = remove (id_of offer) s.offer_mimes } in
    let (c, fx) = wayland_announced clipboard (some offer) mimes now s.clipboard in
    ground (
      arith,
      h,
      get-remove (id_of offer) (id_of offer) s.offer_mimes,
      ==_refl (id_of offer),
      apply_destroy_frame now fx.destroy (record t { clipboard = c }),
    )
update_selection_from primary offer mimes now s h =
    let t = record s { offer_mimes = remove (id_of offer) s.offer_mimes } in
    let (c, fx) = wayland_announced primary (some offer) mimes now s.clipboard in
    ground (
      arith,
      h,
      get-remove (id_of offer) (id_of offer) s.offer_mimes,
      ==_refl (id_of offer),
      apply_destroy_frame now fx.destroy (record t { clipboard = c }),
    )

-- An offer is announced, its types one by one, and then it becomes the selection. The clipboard takes it
-- with exactly these types, in order, as the state of that selection shows; but with `-noprimary` the
-- primary selection stays as it is. What was collected for the offer is gone afterwards.
pub update_selection-offer_all :
    (sel : Sel) (offer : DataOffer) (mimes : List String) (now : ℕ) (s : State)
    → (let t = offer_all (id_of offer) mimes (data_offer (id_of offer) s) in
        let u = (update_selection sel (some offer) now t).0 in
        (get (id_of offer) u.offer_mimes ≡ none)
        × (sel_of sel u.clipboard ≡ (
            if is_primary sel && s.noprimary
            then sel_of sel s.clipboard
            else sel_of sel (wayland_announced sel (some offer) mimes now s.clipboard).0)))
unfolding data_offer
update_selection-offer_all sel offer mimes now s =
    let id = id_of offer in
    let t = offer_all id mimes (data_offer id s) in
    let h : get id t.offer_mimes ≡ some mimes =
      offer_all-get id [] mimes (data_offer id s)
        (ground (arith, get-insert id id [] s.offer_mimes, ==_refl id)) in
    ground (
      arith,
      offer_all_frame id mimes (data_offer id s),
      update_selection_from sel offer mimes now t h,
    )
