-- ===== src/X11/Property.antt =====
-- bridge/x11/property.rs and bridge/x11/window.rs: the properties and the event masks of one connection's windows.
-- A warning goes to the log, and is left out but for the bits that it is remembered by.
pub mod Listing
use Prim.Native.Nat.{bit_and, bit_or}
use xwlrvnc.Base.Assoc
use xwlrvnc.Base.{
  ℕ, ◌-◌, ◌^◌, Bool, false, not, ◌&&◌, Option, none, some, List, [], ◌∷◌, ◌++◌, map, if◌then◌else◌,
  ◌==◌, find, retain,
}

pub record Property : Type 0 where
  pub type_ : ℕ
  pub format : ℕ
  pub bytes : List ℕ

-- `HashMap<(u32, u32), Property>`.
abbrev pub Properties : Type 0
Properties = List ((ℕ × ℕ) × Property)

abbrev pub is_property : ℕ → ℕ → (ℕ × ℕ) × Property → Bool
is_property window property ((w, p), value) = w == window && p == property

abbrev pub value_of : Option ((ℕ × ℕ) × Property) → Option Property
value_of none = none
value_of (some (k, value)) = some value

unfoldable pub get : ℕ → ℕ → Properties → Option Property
get window property map = value_of (find (is_property window property) map)

abbrev pub is_other : ℕ → ℕ → (ℕ × ℕ) × Property → Bool
is_other window property entry = not (is_property window property entry)

unfoldable pub set_property : ℕ → ℕ → Property → Properties → Properties
set_property window property value map =
    retain (is_other window property) map ++ (((window, property), value) ∷ [])

unfoldable pub remove : ℕ → ℕ → Properties → Properties × Option Property
unfolding get
remove window property map = (retain (is_other window property) map, get window property map)

unfoldable pub list : ℕ → Properties → List ℕ
list window [] = []
list window (((w, p), value) ∷ map) =
    let later = list window map in if w == window then p ∷ later else later

pub record Windows : Type 0 where
  pub masks : List (ℕ × ℕ)
  pub warned : ℕ

unfoldable pub set_mask : ℕ → ℕ → Windows → Windows
set_mask window mask s = record s { masks = Assoc.insert window mask s.masks }

unfoldable pub remove_window : ℕ → Windows → Windows
remove_window window s = record s { masks = Assoc.remove window s.masks }

-- `EventMask::PROPERTY_CHANGE` and `EventMask::STRUCTURE_NOTIFY`.
abbrev pub property_change : ℕ
property_change = 2 ^ 22

abbrev pub structure_notify : ℕ
structure_notify = 2 ^ 17

abbrev pub has_property_change : Option ℕ → Bool
has_property_change none = false
has_property_change (some mask) = bit_and mask property_change == property_change

unfoldable pub wants_property_change : ℕ → Windows → Bool
wants_property_change window s = has_property_change (Assoc.get window s.masks)

-- `a & !b` of two words of 32 bits.
abbrev pub without_bits : ℕ → ℕ → ℕ
without_bits a b = bit_and a (2 ^ 32 - 1 - b)

abbrev pub unsupported_in : ℕ → Windows → ℕ
unsupported_in mask s =
    without_bits (without_bits mask (bit_or property_change structure_notify)) s.warned

unfoldable pub warn_unsupported : ℕ → Windows → Windows
warn_unsupported mask s =
    let unsupported = unsupported_in mask s in
    if unsupported == 0 then s else record s { warned = bit_or s.warned unsupported }
