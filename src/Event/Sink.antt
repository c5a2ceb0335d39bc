-- ===== src/Event/Sink.antt =====
-- bridge/event/mod.rs: `EventSink`, which tells every client what it asked to be told, and bridge/cursor.rs, whose
-- serial it carries. A registration is `Weak`: `held` is whether the connection still has the client. An
-- event of x11rb is a `Notice`, and `serialize` is what x11rb makes of it. `first_event` of an extension
-- is an argument.
pub mod FanOut
pub mod Frames
use xwlrvnc.Base.{
  ℕ, zero, suc, ◌+◌, ◌%◌, max, Bool, true, not, ◌&&◌, Option, some, List, [], ◌∷◌, ◌++◌,
  if◌then◌else◌, ◌==◌, ◌>>=◌, count, retain,
}
use xwlrvnc.Event.Outbox.{Client, selections_for, send_event_bytes}
use xwlrvnc.Base.Word.{u16_mod, wrapping_add32}
use xwlrvnc.Base.Int.{ℤ}
use xwlrvnc.X11.Randr.{mm}

pub record Registration : Type 0 where
  pub client : Client
  pub held : Bool

abbrev pub Sink : Type 0
Sink = List Registration

abbrev pub is_live : Registration → Bool
is_live r = r.held && not r.client.dead

unfoldable pub register : Client → Sink → Sink
register c sink = retain is_live sink ++ (record { client = c; held = true } ∷ [])

pub data Notice : Type 0 where
  screen_change :
      (first_event sequence timestamp config_timestamp request_window : ℕ)
      → (width height mwidth mheight : ℕ) → Notice
  configure : (sequence width height : ℕ) → Notice
  cursor_notify : (response_type sequence window serial timestamp : ℕ) → Notice
  selection_notify :
      (first_event subtype sequence window owner atom : ℕ)
      → (timestamp selection_timestamp : ℕ) → Notice
  mapping : (sequence request first_keycode count : ℕ) → Notice

-- `buf.resize(32, 0)` of a shorter buffer.
abbrev pub padded : ℕ → List ℕ → List ℕ
padded zero bytes = bytes
padded (suc n) [] = 0 ∷ padded n []
padded (suc n) (b ∷ bytes) = b ∷ padded n bytes

-- `mm(width) as u16`.
abbrev pub mm16 : ℕ → ℕ
mm16 n = mm n % u16_mod

-- What the body of each fan-out sends to one client. No send changes what it reads.
abbrev pub screen_notices : ℕ → ℕ → ℕ → ℕ → ℕ → Client → List Notice
screen_notices first_event width height timestamp config_timestamp c =
    let to_root = if c.root_structure then configure c.seq width height ∷ [] else [] in
    if c.randr_window == 0
    then to_root
    else screen_change first_event c.seq timestamp config_timestamp c.randr_window width height
        (mm16 width) (mm16 height)
      ∷ to_root

-- `CURSOR_NOTIFY_EVENT` is 1.
abbrev pub cursor_notices : ℕ → ℕ → ℕ → Client → List Notice
cursor_notices first_event serial timestamp c =
    if c.cursor_window == 0
    then []
    else cursor_notify (first_event + 1) c.seq c.cursor_window serial timestamp ∷ []

abbrev pub selection_notices : ℕ → ℕ → ℕ → ℕ → ℕ → Client → List (ℕ × ℕ) → List Notice
selection_notices first_event subtype owner timestamp selection_timestamp c [] = []
selection_notices first_event subtype owner timestamp selection_timestamp c
      ((window, atom) ∷ regs) =
    selection_notify first_event subtype c.seq window owner atom timestamp selection_timestamp
    ∷ selection_notices first_event subtype owner timestamp selection_timestamp c regs

-- `Mapping::KEYBOARD` is 1, and `Mapping::MODIFIER` is 0.
abbrev pub mapping_notices : ℕ → ℕ → Client → List Notice
mapping_notices first_keycode count c =
    mapping c.seq 1 first_keycode count ∷ mapping c.seq 0 first_keycode count ∷ []

-- The clients that are gone are dropped; `none` is a panic.
abbrev pub kept : Registration → Option Client → Option Sink → Option Sink
kept r told later =
    if is_live r then (do c ← told; sink ← later; some (record r { client = c } ∷ sink)) else later

unfoldable pub each_live : (Client → Option Client) → Sink → Option Sink
each_live f [] = some []
each_live f (r ∷ rs) = kept r (f r.client) (each_live f rs)

module _ (serialize : Notice → List ℕ) where
  abbrev pub send_notice : Notice → Client → Option Client
  send_notice notice c = send_event_bytes c (padded 32 (serialize notice))

  abbrev pub send_all : List Notice → Client → Option Client
  send_all [] c = some c
  send_all (notice ∷ notices) c = send_notice notice c >>= send_all notices

  unfoldable pub screen_changed : ℕ → ℕ → ℕ → ℕ → ℕ → Sink → Option Sink
  unfolding each_live
  screen_changed first_event width height timestamp config_timestamp sink =
      each_live
        (λ c. send_all (screen_notices first_event width height timestamp config_timestamp c) c)
        sink

  unfoldable pub cursor_changed : ℕ → ℕ → ℕ → Sink → Option Sink
  unfolding each_live
  cursor_changed first_event serial timestamp sink =
      each_live (λ c. send_all (cursor_notices first_event serial timestamp c) c) sink

  unfoldable pub selection_changed : ℕ → ℕ → ℕ → ℕ → ℕ → ℕ → Sink → Option Sink
  unfolding each_live
  selection_changed first_event atom subtype owner timestamp selection_timestamp sink =
      each_live
        (λ c.
          send_all
            (selection_notices first_event subtype owner timestamp selection_timestamp c
              (selections_for c atom subtype))
            c)
        sink

  unfoldable pub keyboard_mapping_changed : ℕ → ℕ → Sink → Option Sink
  unfolding each_live
  keyboard_mapping_changed first_keycode count sink =
      each_live (λ c. send_all (mapping_notices first_keycode count c) c) sink

-- bridge/cursor.rs.
pub record Cursor : Type 0 where
  pub serial : ℕ
  pub width : ℕ
  pub height : ℕ
  pub xhot : ℕ
  pub yhot : ℕ
  pub x : ℤ
  pub y : ℤ
  pub image : List ℕ

-- The new serial stands in the result; it is never 0.
unfoldable pub update_image : ℕ → ℕ → ℕ → ℕ → List ℕ → Cursor → Cursor
update_image w h xhot yhot image g = record g {
  width = w;
  height = h;
  xhot = xhot;
  yhot = yhot;
  image = image;
  serial = max (wrapping_add32 g.serial 1) 1;
}

unfoldable pub update_position : ℤ → ℤ → Cursor → Cursor
update_position x y g = record g { x = x; y = y }
