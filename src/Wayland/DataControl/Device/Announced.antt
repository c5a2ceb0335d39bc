-- ===== src/Wayland/DataControl/Device/Announced.antt =====
-- What the compositor makes of a publication, and how the clipboard knows it again.
use Prim.Native.String.{String}
use xwlrvnc.Base.{
  ◌≡◌, refl, Bool, true, false, List, [], ◌∷◌, ◌++◌, arith, Option, none, some, is_some,
}
use xwlrvnc.Clip.Types.{Bytes, Sel, clipboard, primary}
use xwlrvnc.Clip.State.{SelState, take_echo, text_mimes}
use xwlrvnc.Clip.Transitions.{echo_of}
use xwlrvnc.Wayland.DataControl.Device.{
  DataDevice, ext, wlr, Request, create_source, offer_mime, set_selection, carries, publish_on,
}

-- What the requests make of the selections: the last one set, whether to a source, and the types that
-- were offered on that source before it was used. `offered` are those of the source made last.
abbrev pub selection_made : List String → List Request → Option (Sel × Bool × List String)
selection_made offered [] = none
selection_made offered (create_source sel value ∷ rs) = selection_made [] rs
selection_made offered (offer_mime mime ∷ rs) = selection_made (offered ++ (mime ∷ [])) rs
selection_made offered (set_selection sel true ∷ rs) = some (sel, true, offered)
selection_made offered (set_selection sel false ∷ rs) = some (sel, false, [])
selection_made offered (r ∷ rs) = selection_made offered rs

abbrev pub mimes_of : Option Bytes → List String
mimes_of none = []
mimes_of (some value) = text_mimes

selection_made_lem :
    (device : DataDevice) (sel : Sel) (value : Option Bytes)
    → carries device sel ≡ true
    → selection_made [] (publish_on device sel value) ≡ some (sel, is_some value, mimes_of value)
unfolding publish_on
selection_made_lem ext clipboard none h = refl
selection_made_lem ext clipboard (some v) h = refl
selection_made_lem ext primary none h = refl
selection_made_lem ext primary (some v) h = refl
selection_made_lem (wlr version) clipboard none h = refl
selection_made_lem (wlr version) clipboard (some v) h = refl
selection_made_lem (wlr version) primary none h = ground arith
selection_made_lem (wlr version) primary (some v) h = ground arith

-- On a device that carries the selection, a publication sets exactly what it should: that selection, to a
-- source if there is a value, with the text types offered on it. When the compositor announces the
-- selection so made, the clipboard knows the oldest echo it is owed in it, and takes that echo off.
pub publish_on-take_echo :
    (device : DataDevice) (sel : Sel) (value : Option Bytes) (s : SelState)
    → carries device sel ≡ true
    → (made : Bool × List String) × (selection_made [] (publish_on device sel value)
        ≡ some (sel, made.0, made.1))
      × (take_echo made.0 made.1 (record s { echoes = echo_of value ∷ s.echoes })
          ≡ (record s { published = is_some value }, true))
unfolding take_echo
publish_on-take_echo device sel none s h = ((false, []), selection_made_lem device sel none h, refl)
publish_on-take_echo device sel (some v) s h =
    ((true, text_mimes), selection_made_lem device sel (some v) h, refl)
