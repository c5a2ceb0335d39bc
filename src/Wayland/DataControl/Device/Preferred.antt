-- ===== src/Wayland/DataControl/Device/Preferred.antt =====
-- Which device there is.
use xwlrvnc.Base.{
  ◌||◌, ℕ, suc, ◌+◌, ◌≡◌, refl, Bool, true, false, ◌&&◌, List, [], ◌∷◌, ◌++◌, arith, Option, none,
  some, is_some,
}
use xwlrvnc.Clip.Types.{Sel, clipboard, primary}
use xwlrvnc.Clip.State.{Clipboard, set_publishable, default_clipboard}
use xwlrvnc.Wayland.DataControl.Device.{
  DataDevice, ext, wlr, Request, get_device, destroy_device, create_source, offer_mime,
  set_selection, receive_offer, destroy_offer, destroy_source, carries, Devices, no_devices, is_ext,
  publisher, try_init_device, ext_found, wlr_found, clipboard_seat_found, or_else,
}

abbrev pub made : List Request → ℕ
made [] = 0
made (get_device d seat ∷ rs) = suc (made rs)
made (r ∷ rs) = made rs

abbrev pub destroyed : List Request → ℕ
destroyed [] = 0
destroyed (destroy_device d ∷ rs) = suc (destroyed rs)
destroyed (r ∷ rs) = destroyed rs

made-append : (xs ys : List Request) → made (xs ++ ys) ≡ made xs + made ys
made-append [] ys = omega arith
made-append (get_device d seat ∷ xs) ys = omega (arith, made-append xs ys)
made-append (destroy_device d ∷ xs) ys = made-append xs ys
made-append (create_source sel b ∷ xs) ys = made-append xs ys
made-append (offer_mime m ∷ xs) ys = made-append xs ys
made-append (set_selection sel b ∷ xs) ys = made-append xs ys
made-append (receive_offer o m ∷ xs) ys = made-append xs ys
made-append (destroy_offer o ∷ xs) ys = made-append xs ys
made-append (destroy_source ∷ xs) ys = made-append xs ys

destroyed-append : (xs ys : List Request) → destroyed (xs ++ ys) ≡ destroyed xs + destroyed ys
destroyed-append [] ys = omega arith
destroyed-append (get_device d seat ∷ xs) ys = destroyed-append xs ys
destroyed-append (destroy_device d ∷ xs) ys = omega (arith, destroyed-append xs ys)
destroyed-append (create_source sel b ∷ xs) ys = destroyed-append xs ys
destroyed-append (offer_mime m ∷ xs) ys = destroyed-append xs ys
destroyed-append (set_selection sel b ∷ xs) ys = destroyed-append xs ys
destroyed-append (receive_offer o m ∷ xs) ys = destroyed-append xs ys
destroyed-append (destroy_offer o ∷ xs) ys = destroyed-append xs ys
destroyed-append (destroy_source ∷ xs) ys = destroyed-append xs ys

abbrev pub live : Option DataDevice → ℕ
live none = 0
live (some d) = 1

abbrev pub carried : Option DataDevice → Sel → Bool
carried none sel = false
carried (some d) sel = carries d sel

-- There is a device as soon as there are a seat and a manager, and it is ext's if that manager is there.
-- The publisher publishes on it, no other device is left alive, and the clipboard knows which selections
-- it carries.
pub record IsServed (s : Devices) (c : Clipboard) : Type 0 where
  pub exists :
      is_some s.device ≡ (is_some s.clipboard_seat && (s.ext_manager || is_some s.wlr_manager))
  pub preferred : is_ext s.device ≡ (is_some s.clipboard_seat && s.ext_manager)
  pub same : s.publish ≡ s.device
  pub single : made s.requests ≡ destroyed s.requests + live s.device
  pub clip : c.clip.publishable ≡ carried s.device clipboard
  pub prim : c.prim.publishable ≡ carried s.device primary

no_devices-IsServed : IsServed no_devices default_clipboard
unfolding no_devices default_clipboard
no_devices-IsServed = ground arith

-- What a call of `try_init_device` makes of a state in which a seat or a manager is new.
record IsDue (s : Devices) (c : Clipboard) : Type 0 where
  pub sound :
      is_some s.device ≡ true
      → (is_some s.clipboard_seat ≡ true) × ((s.ext_manager || is_some s.wlr_manager) ≡ true)
  pub ext_sound : is_ext s.device ≡ true → s.ext_manager ≡ true
  pub same : s.publish ≡ s.device
  pub single : made s.requests ≡ destroyed s.requests + live s.device
  pub clip : c.clip.publishable ≡ carried s.device clipboard
  pub prim : c.prim.publishable ≡ carried s.device primary

try_init_device-IsServed :
    (device : Option DataDevice) (seat wlr_manager : Option ℕ) (s : Devices) (c : Clipboard)
    → s.device ≡ device
    → s.clipboard_seat ≡ seat
    → s.wlr_manager ≡ wlr_manager
    → IsDue s c
    → IsServed (try_init_device s c).0 (try_init_device s c).1
unfolding try_init_device publisher set_publishable
try_init_device-IsServed (some ext) seat m s c d e f v = rw d (ground arith)
try_init_device-IsServed none none m s c d e f v = rw (d, e) (ground arith)
try_init_device-IsServed (some (wlr version)) none m s c d e f v = rw (d, e) (ground arith)
try_init_device-IsServed none (some seat) none s c d e f v =
    rw (d, e, f)
      (ground (
        arith,
        made-append s.requests (get_device ext seat ∷ []),
        destroyed-append s.requests (get_device ext seat ∷ []),
      ))
try_init_device-IsServed none (some seat) (some version) s c d e f v =
    rw (d, e, f)
      (ground (
        arith,
        made-append s.requests (get_device ext seat ∷ []),
        destroyed-append s.requests (get_device ext seat ∷ []),
        made-append s.requests (get_device (wlr version) seat ∷ []),
        destroyed-append s.requests (get_device (wlr version) seat ∷ []),
      ))
try_init_device-IsServed (some (wlr version)) (some seat) m s c d e f v =
    let asked = get_device ext seat ∷ destroy_device (wlr version) ∷ [] in
    rw (d, e) (ground (arith, made-append s.requests asked, destroyed-append s.requests asked))

ext_found-IsServed :
    (s : Devices) (c : Clipboard) → IsServed s c → IsServed (ext_found s c).0 (ext_found s c).1
unfolding ext_found
ext_found-IsServed s c v =
    try_init_device-IsServed s.device s.clipboard_seat s.wlr_manager _ c refl refl refl
      (ground arith)

wlr_found-IsServed :
    (version : ℕ) (s : Devices) (c : Clipboard)
    → IsServed s c
    → IsServed (wlr_found version s c).0 (wlr_found version s c).1
unfolding wlr_found
wlr_found-IsServed version s c v =
    try_init_device-IsServed s.device s.clipboard_seat (some version) _ c refl refl refl
      (ground arith)

clipboard_seat_found-IsServed :
    (seat : ℕ) (s : Devices) (c : Clipboard)
    → IsServed s c
    → IsServed (clipboard_seat_found seat s c).0 (clipboard_seat_found seat s c).1
unfolding clipboard_seat_found
clipboard_seat_found-IsServed seat s c v =
    try_init_device-IsServed s.device (or_else s.clipboard_seat seat) s.wlr_manager _ c refl refl
      refl (ground arith)

-- A global of the registry, or a seat chosen for the clipboard.
pub data Arrival : Type 0 where
  ext_arrives : Arrival
  wlr_arrives seat_arrives : ℕ → Arrival

abbrev pub arrive : Devices × Clipboard → Arrival → Devices × Clipboard
arrive (s, c) ext_arrives = ext_found s c
arrive (s, c) (wlr_arrives version) = wlr_found version s c
arrive (s, c) (seat_arrives seat) = clipboard_seat_found seat s c

abbrev pub arrive_all : Devices × Clipboard → List Arrival → Devices × Clipboard
arrive_all w [] = w
arrive_all w (a ∷ as') = arrive_all (arrive w a) as'

arrive_all-IsServed_from :
    (w : Devices × Clipboard) (as' : List Arrival)
    → IsServed w.0 w.1
    → IsServed (arrive_all w as').0 (arrive_all w as').1
arrive_all-IsServed_from w [] v = v
arrive_all-IsServed_from w (ext_arrives ∷ as') v =
    arrive_all-IsServed_from (ext_found w.0 w.1) as' (ext_found-IsServed w.0 w.1 v)
arrive_all-IsServed_from w (wlr_arrives version ∷ as') v =
    arrive_all-IsServed_from (wlr_found version w.0 w.1) as' (wlr_found-IsServed version w.0 w.1 v)
arrive_all-IsServed_from w (seat_arrives seat ∷ as') v =
    arrive_all-IsServed_from (clipboard_seat_found seat w.0 w.1) as'
      (clipboard_seat_found-IsServed seat w.0 w.1 v)

-- In whatever order the seats and the globals of the two protocols arrive: there is a device exactly if
-- there are a seat and a manager, and it is ext's exactly if that manager is there; the publisher is the
-- one made with it; of the devices asked for, all but that one have been destroyed; and the clipboard
-- takes as publishable exactly the selections that the device carries.
pub arrive_all-IsServed :
    (as' : List Arrival)
    → IsServed
        (arrive_all (no_devices, default_clipboard) as').0
        (arrive_all (no_devices, default_clipboard) as').1
arrive_all-IsServed as' =
    arrive_all-IsServed_from (no_devices, default_clipboard) as' no_devices-IsServed
