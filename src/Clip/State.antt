-- ===== src/Clip/State.antt =====
-- bridge/clipboard.rs: the state of the two selections, and what readers are told of it. The mutex
-- makes each method one step. A client is the identity of its `Arc`: a weak handle that upgrades to the
-- client at hand has that identity. Traces are left out.
use Prim.Native.String.{String}
use text.Mathlib.Text.{◌==◌ as str_eq}
use xwlrvnc.Base.{
  ℕ, ◌+◌, ◌%◌, ◌*◌, ◌^◌, Bool, true, false, not, ◌&&◌, ◌||◌, ◌==◌, if◌then◌else◌, List, [], ◌∷◌,
  Option, none, some, is_some, rest,
}
use xwlrvnc.Base.Word.{u64_mod, wrapping_add32}
use xwlrvnc.Event.Time.{time_cmp, is_gt, is_lt, server_time_ms, note_selection_time}
use xwlrvnc.Clip.Types.{Sel, clipboard, primary, DataOffer, ext, wlr, Bytes}
use xwlrvnc.Clip.Jobs.{Jobs, default}

abbrev pub owner_window_id : ℕ
owner_window_id = 0x16c

abbrev pub max_selection_bytes : ℕ
max_selection_bytes = 64 * 2 ^ 20

abbrev pub text_mimes : List String
text_mimes = "text/plain;charset=utf-8" ∷ "text/plain" ∷ "UTF8_STRING" ∷ "STRING" ∷ "TEXT" ∷ []

-- Whether this is the same offer.
abbrev pub same : DataOffer → DataOffer → Bool
same (ext a) (ext b) = a == b
same (wlr a) (wlr b) = a == b
same _ _ = false

pub record XOwner : Type 0 where
  pub window : ℕ
  pub client : ℕ
  pub time : ℕ
  pub value : Option Bytes

abbrev pub owned_by : XOwner → ℕ → Bool
owned_by o client = o.client == client

-- Whether this is still the acquisition a fetch was started for.
abbrev pub is_acquisition : XOwner → ℕ → ℕ → Bool
is_acquisition o window time = o.window == window && o.time == time

pub data Owner : Type 0 where
  nobody : Owner
  wayland : DataOffer → List String → Owner
  x : XOwner → Owner

-- The owner of an announcement from the compositor.
abbrev pub announced_owner : Option DataOffer → List String → Owner
announced_owner (some offer) mimes = wayland offer mimes
announced_owner none mimes = nobody

abbrev pub window_of : Owner → Option ℕ
window_of nobody = none
window_of (wayland offer mimes) = some owner_window_id
window_of (x o) = some o.window

-- `fx.destroy.extend(owner.into_offer())` onto nothing.
abbrev pub into_offer : Owner → List DataOffer
into_offer (wayland offer mimes) = offer ∷ []
into_offer _ = []

abbrev pub x_owner : Owner → Option XOwner
x_owner (x o) = some o
x_owner _ = none

abbrev pub is_x : Owner → Bool
is_x (x o) = true
is_x _ = false

abbrev pub is_nobody : Owner → Bool
is_nobody nobody = true
is_nobody _ = false

abbrev pub is_wayland : Owner → Bool
is_wayland (wayland offer mimes) = true
is_wayland _ = false

pub data Echo : Type 0 where
  source withdrawn : Echo

abbrev pub max_echoes : ℕ
max_echoes = 16

pub record SelState : Type 0 where
  pub owner : Owner
  pub generation : ℕ
  pub last_changed : ℕ
  pub echoes : List Echo
  pub published : Bool
  pub publishable : Bool

-- `floor` is the clock's static `TIME_FLOOR`.
pub record Clipboard : Type 0 where
  pub clip : SelState
  pub prim : SelState
  pub last_timestamp : ℕ
  pub jobs : Jobs
  pub floor : ℕ

abbrev default_sel : SelState
default_sel = record {
  owner = nobody;
  generation = 0;
  last_changed = 0;
  echoes = [];
  published = false;
  publishable = false;
}

unfoldable pub default_clipboard : Clipboard
default_clipboard = record {
  clip = default_sel;
  prim = default_sel;
  last_timestamp = 0;
  jobs = default;
  floor = 0;
}

abbrev pub sel_of : Sel → Clipboard → SelState
sel_of clipboard c = c.clip
sel_of primary c = c.prim

-- What a method that holds `sel_mut` leaves behind.
abbrev pub put_sel : Sel → SelState → Clipboard → Clipboard
put_sel clipboard s c = record c { clip = s }
put_sel primary s c = record c { prim = s }

-- Moves the selection to a new owner; the one it replaces is the owner of the state before.
abbrev pub enter : Owner → SelState → SelState
enter owner s = record s { generation = (s.generation + 1) % u64_mod; owner = owner }

-- `mimes.iter().eq(other)`.
abbrev pub mimes_eq : List String → List String → Bool
mimes_eq [] [] = true
mimes_eq (a ∷ as') (b ∷ bs) = str_eq a b && mimes_eq as' bs
mimes_eq _ _ = false

abbrev pub is_ours : List Echo → Bool → List String → Bool
is_ours [] has_offer mimes = false
is_ours (source ∷ es) has_offer mimes = has_offer && mimes_eq mimes text_mimes
is_ours (withdrawn ∷ es) has_offer mimes = not has_offer

unfoldable pub take_echo : Bool → List String → SelState → SelState × Bool
take_echo has_offer mimes s =
    if is_ours s.echoes has_offer mimes
    then (record s { echoes = rest s.echoes; published = has_offer }, true)
    else (s, false)

-- The timestamp of a Wayland-side change, and the state that remembers it.
unfoldable pub next_timestamp : ℕ → Clipboard → Clipboard × ℕ
next_timestamp clock c =
    let now = server_time_ms clock c.floor in
    let ts =
      if is_gt (time_cmp now c.last_timestamp) then now else wrapping_add32 c.last_timestamp 1 in
    (record c { last_timestamp = ts; floor = note_selection_time ts c.floor }, ts)

unfoldable pub changed_at : Sel → ℕ → Clipboard → Clipboard
changed_at sel time c =
    let t = if is_gt (time_cmp time c.last_timestamp) then time else c.last_timestamp in
    put_sel sel (record (sel_of sel c) { last_changed = time }) (record c { last_timestamp = t })

abbrev pub stale_owner_time : ℕ → ℕ → ℕ → Bool
stale_owner_time time now last_changed =
    is_gt (time_cmp time now) || is_lt (time_cmp time last_changed)

pub data Value : Type 0 where
  nothing : Value
  here : Bytes → Value
  from_wayland : Value

unfoldable pub set_publishable : Sel → Bool → Clipboard → Clipboard
set_publishable sel publishable c =
    put_sel sel (record (sel_of sel c) { publishable = publishable }) c

unfoldable pub owner_window : Sel → Clipboard → Option ℕ
owner_window sel c = window_of (sel_of sel c).owner

abbrev pub owner_mimes : Owner → List String
owner_mimes nobody = []
owner_mimes (wayland offer mimes) = mimes
owner_mimes (x o) = if is_some o.value then text_mimes else []

unfoldable pub convertible : Sel → Clipboard → List String × ℕ
convertible sel c = (owner_mimes (sel_of sel c).owner, (sel_of sel c).generation)

abbrev pub offer_of : Owner → Bool → Option DataOffer
offer_of (wayland offer mimes) true = some offer
offer_of _ _ = none

unfoldable pub offer_at : Sel → ℕ → Clipboard → Option DataOffer
offer_at sel generation c = let s = sel_of sel c in offer_of s.owner (s.generation == generation)

abbrev pub owner_value : Owner → Value
owner_value nobody = nothing
owner_value (x o) = elim o.value [ some bytes ↦ here bytes | none ↦ nothing ]
owner_value (wayland offer mimes) = from_wayland

unfoldable pub value : Sel → Clipboard → Value
value sel c = owner_value (sel_of sel c).owner

abbrev pub current_is : Owner → DataOffer → Bool
current_is (wayland cur mimes) offer = same cur offer
current_is _ offer = false

unfoldable pub is_current : Sel → DataOffer → Clipboard → Bool
is_current sel offer c = current_is (sel_of sel c).owner offer
