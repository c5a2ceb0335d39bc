-- ===== src/X11/Randr/Layout.antt =====
-- bridge/x11/randr.rs: the outputs' places on the screen, and the screen's size.
use xwlrvnc.Base.{ℕ, ◌+◌, min, max, Bool, not, ◌&&◌, ◌||◌, ◌==◌, if◌then◌else◌, List, [], ◌∷◌, map}
use xwlrvnc.Base.Int.{ℤ, pos, pos_part, max_ℤ, min_ℤ}
use xwlrvnc.X11.Randr.{Screen, Output, max_screen, bump}
use xwlrvnc.X11.Randr.Pack.{Item, pack_axis}

-- `clamp(0, i16::MAX) as i16`.
abbrev pub clamp16 : ℤ → ℤ
clamp16 z = min_ℤ (max_ℤ z (pos 0)) (pos 32767)

abbrev pub x_item : Output → Item
x_item o = record { start = o.lx; len = o.lw; phys = pos o.width }

abbrev pub y_item : Output → Item
y_item o = record { start = o.ly; len = o.lh; phys = pos o.height }

-- The two lists of places are as long as the list of outputs.
abbrev pub place : List ℤ → List ℤ → List Output → List Output
place (px ∷ pxs) (py ∷ pys) (o ∷ os) =
    record o { x = clamp16 px; y = clamp16 py } ∷ place pxs pys os
place _ _ os = os

unfoldable pub relayout_physical : Screen → Screen
relayout_physical s = record s {
  outputs = place (pack_axis (map x_item s.outputs)) (pack_axis (map y_item s.outputs)) s.outputs;
}

abbrev pub is_shown : Output → Bool
is_shown o = o.connected && not (o.mode == 0)

-- `(o.x.max(0) as u16).saturating_add(o.width)`.
abbrev pub right : Output → ℕ
right o = min (pos_part o.x + o.width) 65535

abbrev pub bottom : Output → ℕ
bottom o = min (pos_part o.y + o.height) 65535

-- The loop of `recompute_bounds`, of one axis.
abbrev pub extent : (Output → ℕ) → List Output → ℕ → ℕ
extent far [] w = w
extent far (o ∷ os) w = extent far os (if is_shown o then max w (far o) else w)

-- `clamp(1, MAX_SCREEN)`.
abbrev pub clamp_size : ℕ → ℕ
clamp_size n = min (max n 1) max_screen

unfoldable pub recompute_bounds : Screen → Screen × Bool
recompute_bounds s =
    let w = clamp_size (extent right s.outputs 0) in
    let h = clamp_size (extent bottom s.outputs 0) in
    let changed = not (w == s.width) || not (h == s.height) in
    let t = record s { width = w; height = h } in (if changed then bump t else t, changed)

unfoldable pub set_size : ℕ → ℕ → Screen → Screen
set_size width height s = bump (record s { width = clamp_size width; height = clamp_size height })
