-- ===== src/X11/Randr.antt =====
-- bridge/x11/randr.rs: the RandR screen that mirrors the Wayland outputs: its state and modes.
-- Identifiers and sizes are words; positions and logical rectangles are integers.
pub mod Orders
pub mod Pack
pub mod Layout
pub mod Crtc
pub mod Sync
pub mod Rows
pub mod Bounds
pub mod Modes
pub mod Lookups
pub mod Mirror
pub mod Reports
use xwlrvnc.Base.{
  ℕ, zero, suc, ◌+◌, ◌-◌, ◌*◌, ◌/◌, ◌%◌, ◌^◌, Bool, true, false, not, ◌&&◌, ◌||◌, ◌==◌,
  if◌then◌else◌, ltb, List, [], ◌∷◌, ◌++◌, map, Option, none, some, length, find, any, retain,
  contains, update_first,
}
use xwlrvnc.Base.Word.{u32_mod, wrapping_add32}
use xwlrvnc.Base.Int.{ℤ, pos}

abbrev pub max_screen : ℕ
max_screen = 16384

-- x11rb's `ModeInfo`.
pub record ModeInfo : Type 0 where
  pub id : ℕ
  pub width : ℕ
  pub height : ℕ
  pub dot_clock : ℕ
  pub hsync_start : ℕ
  pub hsync_end : ℕ
  pub htotal : ℕ
  pub hskew : ℕ
  pub vsync_start : ℕ
  pub vsync_end : ℕ
  pub vtotal : ℕ
  pub name_len : ℕ
  pub mode_flags : ℕ

pub record Mode : Type 0 where
  pub info : ModeInfo
  pub name : List ℕ
  pub ours : Bool

pub record Output : Type 0 where
  pub output_id : ℕ
  pub crtc_id : ℕ
  pub name : List ℕ
  pub x : ℤ
  pub y : ℤ
  pub width : ℕ
  pub height : ℕ
  pub lx : ℤ
  pub ly : ℤ
  pub lw : ℤ
  pub lh : ℤ
  pub mode : ℕ
  pub mode_ids : List ℕ
  pub mm_width : ℕ
  pub mm_height : ℕ
  pub wl_name : ℕ
  pub connected : Bool

pub record Screen : Type 0 where
  pub width : ℕ
  pub height : ℕ
  pub modes : List Mode
  pub outputs : List Output
  pub next_id : ℕ
  pub timestamp : ℕ
  pub config_timestamp : ℕ

abbrev pub is_wayland : Output → Bool
is_wayland o = not (o.wl_name == 0)

-- util/geometry.rs: millimetres at 96 DPI.
abbrev pub mm : ℕ → ℕ
mm pixels = pixels * 254 / 960

-- The decimal digits of a number below 10 ^ fuel, as ASCII.
abbrev pub decimal : ℕ → ℕ → List ℕ
decimal zero n = []
decimal (suc fuel) n =
    let front = decimal fuel (n / 10) in
    if ltb n 10 then (n + b'0') ∷ [] else front ++ ((n % 10 + b'0') ∷ [])

-- `format!("{width}x{height}")` of two 16-bit numbers.
abbrev pub mode_name : ℕ → ℕ → List ℕ
mode_name width height = decimal 5 width ++ (b'x' ∷ decimal 5 height)

abbrev pub clock_of : ℕ → ℕ → ℕ → ℕ
clock_of width height refresh_mhz =
    if ltb 0 refresh_mhz
    then width * height * refresh_mhz / 1000 % u32_mod
    else width * height * 60 % u32_mod

-- `Mode::new`.
unfoldable pub new_mode : ℕ → ℕ → ℕ → ℕ → Mode
new_mode id width height refresh_mhz =
    let name = mode_name width height in
    record {
      info = record {
        id = id;
        width = width;
        height = height;
        dot_clock = clock_of width height refresh_mhz;
        hsync_start = 0;
        hsync_end = 0;
        htotal = width;
        hskew = 0;
        vsync_start = 0;
        vsync_end = 0;
        vtotal = height;
        name_len = length name % 2 ^ 16;
        mode_flags = 0;
      };
      name = name;
      ours = true;
    }

unfoldable pub alloc_id : Screen → Screen × ℕ
alloc_id s = (record s { next_id = wrapping_add32 s.next_id 1 }, s.next_id)

unfoldable pub alloc_mode : ℕ → ℕ → ℕ → Screen → Screen × ℕ
unfolding alloc_id
alloc_mode width height refresh_mhz s =
    let (t, id) = alloc_id s in
    (record t { modes = t.modes ++ (new_mode id width height refresh_mhz ∷ []) }, id)

unfoldable pub create_mode : ModeInfo → List ℕ → Screen → Screen × ℕ
unfolding alloc_id
create_mode info name s =
    let (t, id) = alloc_id s in
    (
      record t {
        modes =
            t.modes
            ++ (record {
              info = record info { id = id; name_len = length name % 2 ^ 16 };
              name = name;
              ours = false;
            }
                ∷ []);
      },
      id,
    )

abbrev pub lists : ℕ → Output → Bool
lists mode o = contains o.mode_ids mode

unfoldable pub prune_modes : Screen → Screen
prune_modes s = record s {
  modes = retain (λ m. not m.ours || any (lists m.info.id) s.outputs) s.modes;
}

-- `if !o.mode_ids.contains(&mode) { o.mode_ids.push(mode) }`.
abbrev pub list_mode : ℕ → Output → Output
list_mode mode o = record o {
  mode_ids = if contains o.mode_ids mode then o.mode_ids else o.mode_ids ++ (mode ∷ []);
}

unfoldable pub add_output_mode : ℕ → ℕ → Screen → Screen
add_output_mode output mode s = record s {
  outputs = update_first (λ o. o.output_id == output) (list_mode mode) s.outputs;
}

abbrev pub unlist_mode : ℕ → Output → Output
unlist_mode mode o = record o { mode_ids = retain (λ m. not (m == mode)) o.mode_ids }

unfoldable pub delete_output_mode : ℕ → ℕ → Screen → Screen
delete_output_mode output mode s = record s {
  outputs = update_first (λ o. o.output_id == output) (unlist_mode mode) s.outputs;
}

unfoldable pub destroy_mode : ℕ → Screen → Screen
destroy_mode mode s = record s {
  modes = retain (λ m. not (m.info.id == mode)) s.modes;
  outputs = map (unlist_mode mode) s.outputs;
}

unfoldable pub output_by_id : ℕ → Screen → Option Output
output_by_id output s = find (λ o. o.output_id == output) s.outputs

unfoldable pub output_by_crtc : ℕ → Screen → Option Output
output_by_crtc crtc s = find (λ o. o.crtc_id == crtc) s.outputs

unfoldable pub output_by_wl_name : ℕ → Screen → Option Output
output_by_wl_name wl_name s = find (λ o. o.wl_name == wl_name && is_wayland o) s.outputs

abbrev pub size_in : List Mode → ℕ → Option (ℕ × ℕ)
size_in [] id = none
size_in (m ∷ ms) id = if m.info.id == id then some (m.info.width, m.info.height) else size_in ms id

abbrev pub mode_size : Screen → ℕ → Option (ℕ × ℕ)
mode_size s id = size_in s.modes id

unfoldable pub physical_pos : ℕ → Screen → Option (ℤ × ℤ)
physical_pos wl_name s = elim (find (λ o. o.wl_name == wl_name) s.outputs) [
  | none ↦ none
  | some o ↦ some (o.x, o.y)
]

unfoldable pub bump : Screen → Screen
bump s = record s {
  timestamp = wrapping_add32 s.timestamp 1;
  config_timestamp = wrapping_add32 s.config_timestamp 1;
}

-- A screen of one synthetic output. `base` is `RANDR_OUTPUT_BASE`.
unfoldable pub new : ℕ → ℕ → ℕ → Screen
unfolding alloc_mode alloc_id
new base width height =
    let empty : Screen = record {
      width = width;
      height = height;
      modes = [];
      outputs = [];
      next_id = base;
      timestamp = 1;
      config_timestamp = 1;
    } in
    let (s, mode) = alloc_mode width height 0 empty in
    let (t, output_id) = alloc_id s in
    let (u, crtc_id) = alloc_id t in
    record u {
      outputs =
          record {
            output_id = output_id;
            crtc_id = crtc_id;
            name = b's' ∷ b'c' ∷ b'r' ∷ b'e' ∷ b'e' ∷ b'n' ∷ [];
            x = pos 0;
            y = pos 0;
            width = width;
            height = height;
            lx = pos 0;
            ly = pos 0;
            lw = pos width;
            lh = pos height;
            mode = mode;
            mode_ids = mode ∷ [];
            mm_width = mm width;
            mm_height = mm height;
            wl_name = 0;
            connected = true;
          }
          ∷ [];
    }
