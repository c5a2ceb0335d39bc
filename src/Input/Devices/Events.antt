-- ===== src/Input/Devices/Events.antt =====
-- bridge/input.rs: any sequence of what is asked of the input, and what it leaves.
use Prim.{⊥}
use xwlrvnc.Base.{ℕ, ◌<◌, Option, none, some, List, [], ◌∷◌, ◌>>=◌, All}
use xwlrvnc.Input.Devices.{
  Input, XkbState, fake_input, set_devices, set_geometry, set_keymap, set_layout,
  set_modifier_keymap,
}
use xwlrvnc.Util.Layout.Bounds.{IsProper}
use xwlrvnc.Base.Int.{ℤ}
use xwlrvnc.Util.Layout.{OutputRect}

-- What the clients and the Wayland thread do.
pub data Event (X : Type 0) : Type 0 where
  fakes : (type_ detail : ℕ) → (x y : ℤ) → (now : ℕ) → Event X
  sets_devices : Event X
  sets_keymap : (format size : ℕ) → Event X
  sets_modifier_keymap : Option X → Event X
  sets_geometry : (width height : ℕ) → Event X
  sets_layout : List OutputRect → Event X

-- A detail is a byte, and the outputs of a layout have a size.
abbrev pub IsEvent : {X : Type 0} → Event X → Type 0
IsEvent (fakes type_ detail x y now) = detail < 256
IsEvent (sets_layout outputs) = All IsProper outputs
IsEvent _ = Unit

-- Without a panic, and with this of the result.
abbrev pub Returns : {X : Type 0} → (Input X → Type 0) → Option (Input X) → Type 0
Returns P none = ⊥
Returns P (some s) = P s

module _ {X : Type 0} (ops : XkbState X) where
  unfoldable pub step : Event X → Input X → Option (Input X)
  unfolding fake_input
  step (fakes type_ detail x y now) s = fake_input ops type_ detail x y now s
  step sets_devices s = some (set_devices ops s)
  step (sets_keymap format size) s = some (set_keymap ops format size s)
  step (sets_modifier_keymap fresh) s = some (set_modifier_keymap ops fresh s)
  step (sets_geometry width height) s = some (set_geometry ops width height s)
  step (sets_layout outputs) s = some (set_layout ops outputs s)

  -- A panic ends the run.
  unfoldable pub run : List (Event X) → Input X → Option (Input X)
  run [] s = some s
  run (e ∷ es) s = step e s >>= run es
