-- ===== src/Input/Devices.antt =====
-- bridge/input.rs: the virtual-input requests that XTest events turn into. Of xkbcommon, `XkbState` has the calls that
-- the source makes on a state. A time is milliseconds since the start, read once by each call. The pixels
-- and wheel steps that the protocol has as fractions are whole numbers here, as all of them are.
pub mod Bits
pub mod Events
pub mod Presses
use xwlrvnc.Base.{
  ℕ, zero, suc, ◌+◌, ◌-◌, ◌*◌, ◌/◌, ◌%◌, min, Bool, true, false, not, ◌&&◌, ◌||◌, Option, none,
  some, List, [], ◌∷◌, ◌++◌, if◌then◌else◌, is_some, ◌==◌, ◌>>=◌, get_or, set,
}
use xwlrvnc.Base.Int.{negsuc, pos, pos_part, ℤ, ◌-ℤ◌}
use xwlrvnc.Base.Word.{u32_mod, wrapping_sub32}
use xwlrvnc.Util.Layout.{Layout, OutputRect, Target, layout_of, to_logical}

pub data Axis : Type 0 where
  vertical_scroll horizontal_scroll : Axis

-- The requests of the virtual keyboard and pointer, and the flush of their connection.
pub data Request : Type 0 where
  keymap : (format size : ℕ) → Request
  key : (time code state : ℕ) → Request
  modifiers : (depressed latched locked group : ℕ) → Request
  motion_absolute : (time x y extent_x extent_y : ℕ) → Request
  motion : (time : ℕ) → (dx dy : ℤ) → Request
  button : (time code : ℕ) → (pressed : Bool) → Request
  axis_source_wheel : Request
  axis : (time : ℕ) → Axis → (value : ℤ) → Request
  axis_discrete : (time : ℕ) → Axis → (value discrete : ℤ) → Request
  frame flush : Request

pub record XkbState (X : Type 0) : Type 0 where
  pub has_layout : ℕ → X → Bool
  pub update_key : ℕ → Bool → X → X
  pub depressed : X → ℕ
  pub latched : X → ℕ
  pub locked : X → ℕ
  pub group : X → ℕ

pub record Backend : Type 0 where
  pub keymap_set : Bool

-- `sent` is what was asked of the backend so far.
pub record Input (X : Type 0) : Type 0 where
  pub width : ℕ
  pub height : ℕ
  pub backend : Option Backend
  pub xkb : Option X
  pub layout : Option Layout
  pub pressed : List ℕ
  pub sent : List Request

abbrev pub key_press : ℕ
key_press = 2

abbrev pub key_release : ℕ
key_release = 3

abbrev pub button_press : ℕ
button_press = 4

abbrev pub button_release : ℕ
button_release = 5

abbrev pub motion_notify : ℕ
motion_notify = 6

abbrev pub wheel_notch : ℕ
wheel_notch = 15

abbrev pub is_odd : ℕ → Bool
is_odd w = w % 2 == 1

-- `word & (1 << i) != 0`, and `word ^ (1 << i)`.
unfoldable pub bit : ℕ → ℕ → Bool
bit w zero = is_odd w
bit w (suc i) = bit (w / 2) i

unfoldable pub flip : ℕ → ℕ → ℕ
flip w zero = if is_odd w then w - 1 else w + 1
flip w (suc i) = flip (w / 2) i * 2 + w % 2

-- Whether the bitset holds a keycode.
abbrev pub is_down : List ℕ → ℕ → Bool
is_down pressed kc = bit (get_or pressed (kc / 64) 0) (kc % 64)

abbrev pub same : Bool → Bool → Bool
same true b = b
same false b = not b

abbrev pub evdev : ℕ → ℕ
evdev kc = wrapping_sub32 kc 8

abbrev pub time32 : ℕ → ℕ
time32 now = now % u32_mod

abbrev pub key_state : Bool → ℕ
key_state press = if press then 1 else 0

abbrev pub scroll_of : ℕ → Option (Axis × ℤ)
scroll_of b =
    if b == 4
    then some (vertical_scroll, negsuc 0)
    else if b == 5
    then some (vertical_scroll, pos 1)
    else if b == 6
    then some (horizontal_scroll, negsuc 0)
    else if b == 7
    then some (horizontal_scroll, pos 1)
    else none

-- The evdev codes, from 0x110 on.
abbrev pub button_code : ℕ → Option ℕ
button_code b =
    if b == 1
    then some 272
    else if b == 2
    then some 274
    else if b == 3
    then some 273
    else if b == 8
    then some 275
    else if b == 9
    then some 276
    else none

abbrev pub notches : ℤ → ℤ
notches (pos n) = pos (n * wheel_notch)
notches (negsuc n) = pos 0 -ℤ pos (suc n * wheel_notch)

module _ {X : Type 0} (ops : XkbState X) where
  unfoldable pub new : ℕ → ℕ → Input X
  new width height = record {
    width = width;
    height = height;
    backend = none;
    xkb = none;
    layout = none;
    pressed = 0 ∷ 0 ∷ 0 ∷ 0 ∷ [];
    sent = [];
  }

  abbrev pub emit : List Request → Input X → Input X
  emit requests s = record s { sent = s.sent ++ requests }

  -- A second call changes nothing.
  abbrev pub set_devices : Input X → Input X
  set_devices s =
      if is_some s.backend then s else record s { backend = some (record { keymap_set = false }) }

  abbrev pub set_keymap : ℕ → ℕ → Input X → Input X
  set_keymap format size s =
      if is_some s.backend
      then emit (keymap format size ∷ flush ∷ [])
          (record s { backend = some (record { keymap_set = true }) })
      else s

  -- The loop over the `n` keycodes from `kc` on.
  abbrev pub replay : List ℕ → ℕ → ℕ → X → X
  replay pressed kc zero x = x
  replay pressed kc (suc n) x =
      replay pressed (suc kc) n
        (if is_down pressed kc && ops.has_layout kc x then ops.update_key kc true x else x)

  -- `state` is the new state of the compiled text, if it compiles.
  abbrev pub set_modifier_keymap : Option X → Input X → Input X
  set_modifier_keymap none s = s
  set_modifier_keymap (some x) s = record s { xkb = some (replay s.pressed 0 256 x) }

  abbrev pub set_geometry : ℕ → ℕ → Input X → Input X
  set_geometry width height s = record s { width = width; height = height }

  abbrev pub set_layout : List OutputRect → Input X → Input X
  set_layout outputs s = record s { layout = layout_of outputs }

  unfoldable pub track_key : ℕ → Bool → Input X → Input X × Bool
  track_key kc press s =
      let word = get_or s.pressed (kc / 64) 0 in
      if same (is_down s.pressed kc) press
      then (s, false)
      else (record s { pressed = set s.pressed (kc / 64) (flip word (kc % 64)) }, true)

  abbrev pub update_tracked : Option X → ℕ → Bool → Input X → Input X
  update_tracked none kc press s = s
  update_tracked (some x) kc press s =
      let y = ops.update_key kc press x in
      if ops.has_layout kc x
      then emit (modifiers (ops.depressed y) (ops.latched y) (ops.locked y) (ops.group y) ∷ [])
          (record s { xkb = some y })
      else s

  abbrev pub update_modifiers : ℕ → Bool → Input X → Input X
  update_modifiers kc press s = update_tracked s.xkb kc press s

  unfoldable pub on_key : Backend → ℕ → Bool → ℕ → Input X → Input X
  on_key b kc press now s =
      let (t, changed) = track_key kc press s in
      if b.keymap_set
      then if changed
        then update_modifiers kc press (emit (key (time32 now) (evdev kc) (key_state press) ∷ []) t)
        else t
      else s

  abbrev pub on_scroll : Axis × ℤ → Bool → ℕ → Input X → Input X
  on_scroll (a, discrete) press now s =
      let t = time32 now in
      if press
      then emit
          (axis_source_wheel
            ∷ axis t a (notches discrete)
            ∷ axis_discrete t a (notches discrete) discrete
            ∷ frame
            ∷ [])
          s
      else s

  abbrev pub on_plain : Option ℕ → Bool → ℕ → Input X → Input X
  on_plain none press now s = s
  on_plain (some code) press now s = emit (button (time32 now) code press ∷ frame ∷ []) s

  unfoldable pub on_button : ℕ → Bool → ℕ → Input X → Input X
  on_button b press now s = elim (scroll_of b) [
    | some scroll ↦ on_scroll scroll press now s
    | none ↦ on_plain (button_code b) press now s
  ]

  -- `i32::from(p).clamp(0, size)`.
  abbrev pub clamp_to : ℤ → ℕ → ℕ
  clamp_to p size = min (pos_part p) size

  abbrev pub land : Option Target → ℤ → ℤ → ℕ → Input X → Input X
  land none x y now s =
      emit
        (motion_absolute (time32 now) (clamp_to x s.width) (clamp_to y s.height) s.width s.height
          ∷ frame
          ∷ [])
        s
  land (some t) x y now s =
      emit (motion_absolute (time32 now) t.x t.y t.extent_x t.extent_y ∷ frame ∷ []) s

  abbrev pub target_in : Option Layout → ℤ → ℤ → Option (Option Target)
  target_in none x y = some none
  target_in (some l) x y = to_logical l x y

  -- `none` is a panic.
  unfoldable pub motion_abs : ℤ → ℤ → ℕ → Input X → Option (Input X)
  motion_abs x y now s = do t ← target_in s.layout x y; some (land t x y now s)

  abbrev pub motion_rel : ℤ → ℤ → ℕ → Input X → Input X
  motion_rel dx dy now s = emit (motion (time32 now) dx dy ∷ frame ∷ []) s

  abbrev pub flushed : Input X → Input X
  flushed s = emit (flush ∷ []) s

  abbrev pub handle : Backend → ℕ → ℕ → ℤ → ℤ → ℕ → Input X → Option (Input X)
  handle b type_ detail x y now s =
      if type_ == key_press || type_ == key_release
      then some (flushed (on_key b detail (type_ == key_press) now s))
      else if type_ == button_press || type_ == button_release
      then some (flushed (on_button detail (type_ == button_press) now s))
      else if type_ == motion_notify
      then if detail == 0
        then (motion_abs x y now s >>= λ t. some (flushed t))
        else some (flushed (motion_rel x y now s))
      else some s

  unfoldable pub fake_input : ℕ → ℕ → ℤ → ℤ → ℕ → Input X → Option (Input X)
  fake_input type_ detail x y now s = elim s.backend [
    | none ↦ some s
    | some b ↦ handle b type_ detail x y now s
  ]
