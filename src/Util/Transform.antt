-- ===== src/Util/Transform.antt =====
-- util/transform.rs: where a pixel and a rectangle of a rotated or flipped buffer land on the screen.
pub mod Onto
use xwlrvnc.Base.{ℕ, Bool, true, false, if◌then◌else◌}
use xwlrvnc.Base.Int.{ℤ, pos, ◌-ℤ◌, i32}

pub data Transform : Type 0 where
  normal rotate90 rotate180 rotate270 flipped flipped90 flipped180 flipped270 : Transform

abbrev pub swaps_axes : Transform → Bool
swaps_axes rotate90 = true
swaps_axes rotate270 = true
swaps_axes flipped90 = true
swaps_axes flipped270 = true
swaps_axes _ = false

unfoldable pub size : Transform → ℕ → ℕ → ℕ × ℕ
size t w h = if swaps_axes t then (h, w) else (w, h)

-- `a - b - c` on `i32`.
abbrev pub less : ℤ → ℤ → ℤ → ℤ
less a b c = i32 (i32 (a -ℤ b) -ℤ c)

pub record Rect : Type 0 where
  pub x : ℤ
  pub y : ℤ
  pub width : ℤ
  pub height : ℤ

abbrev pub corner : Transform → Rect → ℤ → ℤ → ℤ × ℤ
corner normal r w h = (r.x, r.y)
corner rotate90 r w h = (less h r.y r.height, r.x)
corner rotate180 r w h = (less w r.x r.width, less h r.y r.height)
corner rotate270 r w h = (r.y, less w r.x r.width)
corner flipped r w h = (less w r.x r.width, r.y)
corner flipped90 r w h = (r.y, r.x)
corner flipped180 r w h = (r.x, less h r.y r.height)
corner flipped270 r w h = (less h r.y r.height, less w r.x r.width)

unfoldable pub rect : Transform → Rect → ℤ → ℤ → Rect
rect t r w h =
    let (dw, dh) = if swaps_axes t then (r.height, r.width) else (r.width, r.height) in
    let (dx, dy) = corner t r w h in record { x = dx; y = dy; width = dw; height = dh }

unfoldable pub point : Transform → ℤ → ℤ → ℤ → ℤ → ℤ × ℤ
unfolding rect
point t x y w h =
    let r = rect t (record { x = x; y = y; width = pos 1; height = pos 1 }) w h in (r.x, r.y)
