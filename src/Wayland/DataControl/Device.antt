-- ===== src/Wayland/DataControl/Device.antt =====
-- The data-control device and the publisher made with it: `DataControlManager` with its two
-- implementations in data_control/ext.rs and data_control/wlr.rs, `publisher` and `try_init_device`.
-- What the compositor is asked for is `requests`, oldest first; a source is set by the request after the
-- ones that make it and offer its types.
pub mod Preferred
pub mod Announced
use xwlrvnc.Base.{
  false, ℕ, Bool, true, leb, if◌then◌else◌, List, [], ◌∷◌, ◌++◌, Option, none, some, is_some, map,
}
use Prim.Native.String.{String}
use xwlrvnc.Clip.Types.{Bytes, Sel, clipboard, primary, DataOffer}
use xwlrvnc.Clip.State.{Clipboard, set_publishable, text_mimes}

-- A device of either protocol; that of wlr has the version its manager was bound at.
pub data DataDevice : Type 0 where
  ext : DataDevice
  wlr : ℕ → DataDevice

pub data Request : Type 0 where
  get_device : (device : DataDevice) (seat : ℕ) → Request
  destroy_device : DataDevice → Request
  create_source : Sel → Bytes → Request
  offer_mime : String → Request
  set_selection : (sel : Sel) (has_source : Bool) → Request
  receive_offer : DataOffer → String → Request
  destroy_offer : DataOffer → Request
  destroy_source : Request

abbrev pub carries : DataDevice → Sel → Bool
carries ext sel = true
carries (wlr version) clipboard = true
carries (wlr version) primary = leb 2 version

-- `DataControlManager::set_selection`.
abbrev pub set_selection_on : DataDevice → Sel → Bool → List Request
set_selection_on ext sel has_source = set_selection sel has_source ∷ []
set_selection_on (wlr version) clipboard has_source = set_selection clipboard has_source ∷ []
set_selection_on (wlr version) primary has_source =
    if leb 2 version then set_selection primary has_source ∷ [] else []

-- A source with a value, and the types it is offered in.
abbrev pub source_requests : Sel → Option Bytes → List Request
source_requests sel none = []
source_requests sel (some value) = create_source sel value ∷ map offer_mime text_mimes

-- What the publisher of a device asks for.
unfoldable pub publish_on : DataDevice → Sel → Option Bytes → List Request
publish_on device sel value =
    source_requests sel value ++ set_selection_on device sel (is_some value)

-- `publish` is the device that the publisher was made with.
pub record Devices : Type 0 where
  pub clipboard_seat : Option ℕ
  pub ext_manager : Bool
  pub wlr_manager : Option ℕ
  pub device : Option DataDevice
  pub publish : Option DataDevice
  pub requests : List Request

unfoldable pub no_devices : Devices
no_devices = record {
  clipboard_seat = none;
  ext_manager = false;
  wlr_manager = none;
  device = none;
  publish = none;
  requests = [];
}

abbrev pub is_ext : Option DataDevice → Bool
is_ext (some ext) = true
is_ext _ = false

-- What making a publisher tells the clipboard.
unfoldable pub publisher : DataDevice → Clipboard → Clipboard
publisher device c =
    set_publishable primary (carries device primary)
      (set_publishable clipboard (carries device clipboard) c)

-- The wlr device that an ext device replaces.
abbrev pub destroy_replaced : Option DataDevice → List Request
destroy_replaced (some (wlr version)) = destroy_device (wlr version) ∷ []
destroy_replaced _ = []

abbrev pub init_ext : ℕ → Devices → Clipboard → Devices × Clipboard
init_ext seat s c = (
  record s {
    device = some ext;
    publish = some ext;
    requests = s.requests ++ (get_device ext seat ∷ destroy_replaced s.device);
  },
  publisher ext c,
)

abbrev pub init_wlr : ℕ → ℕ → Devices → Clipboard → Devices × Clipboard
init_wlr seat version s c = (
  record s {
    device = some (wlr version);
    publish = some (wlr version);
    requests = s.requests ++ (get_device (wlr version) seat ∷ []);
  },
  publisher (wlr version) c,
)

-- The wlr fallback, when there is no device yet.
abbrev pub init_fallback :
    ℕ → Option DataDevice → Option ℕ → Devices → Clipboard → Devices × Clipboard
init_fallback seat none (some version) s c = init_wlr seat version s c
init_fallback seat _ _ s c = (s, c)

abbrev pub init_on : Option ℕ → Devices → Clipboard → Devices × Clipboard
init_on none s c = (s, c)
init_on (some seat) s c =
    if s.ext_manager then init_ext seat s c else init_fallback seat s.device s.wlr_manager s c

-- An ext device is already the best there is.
unfoldable pub try_init_device : Devices → Clipboard → Devices × Clipboard
try_init_device s c = if is_ext s.device then (s, c) else init_on s.clipboard_seat s c

-- The globals of the registry, bound, and the choice of a seat.
unfoldable pub ext_found : Devices → Clipboard → Devices × Clipboard
ext_found s c = try_init_device (record s { ext_manager = true }) c

unfoldable pub wlr_found : ℕ → Devices → Clipboard → Devices × Clipboard
wlr_found version s c = try_init_device (record s { wlr_manager = some version }) c

abbrev pub or_else : Option ℕ → ℕ → Option ℕ
or_else (some seat) new = some seat
or_else none new = some new

-- The clipboard follows the first seat chosen for it.
unfoldable pub clipboard_seat_found : ℕ → Devices → Clipboard → Devices × Clipboard
clipboard_seat_found seat s c =
    try_init_device (record s { clipboard_seat = or_else s.clipboard_seat seat }) c
