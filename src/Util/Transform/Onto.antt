-- ===== src/Util/Transform/Onto.antt =====
-- A transform is onto the transformed buffer, pixel by pixel, and takes rectangles to rectangles.
use xwlrvnc.Base.{ℕ, ◌&&◌, ◌+◌, ◌-◌, ◌^◌, ◌≤◌, ◌<◌, ◌≡◌, refl, ap, ◌∙◌, Bool, arith}
use xwlrvnc.Base.Int.{ℤ, pos, ◌-ℤ◌, ◌+ℤ◌, leb_ℤ, ltb_ℤ, i32}
use xwlrvnc.Util.Transform.{
  Transform, normal, rotate90, rotate180, rotate270, flipped, flipped90, flipped180, flipped270,
  size, less, Rect, rect, point,
}

-- Within a buffer nothing overflows.
less_pos : (a b c : ℕ) → b + c ≤ a → a < 2 ^ 31 → less (pos a) (pos b) (pos c) ≡ pos (a - b - c)
unfolding i32 ◌-ℤ◌
less_pos a b c h l = ground arith

-- Where a transform takes the pixel of these coordinates of a `w` by `h` buffer.
abbrev pub target : Transform → ℕ → ℕ → ℕ → ℕ → ℕ × ℕ
target normal x y w h = (x, y)
target rotate90 x y w h = (h - y - 1, x)
target rotate180 x y w h = (w - x - 1, h - y - 1)
target rotate270 x y w h = (y, w - x - 1)
target flipped x y w h = (w - x - 1, y)
target flipped90 x y w h = (y, x)
target flipped180 x y w h = (x, h - y - 1)
target flipped270 x y w h = (h - y - 1, w - x - 1)

-- The transform that undoes another.
abbrev pub inverse : Transform → Transform
inverse rotate90 = rotate270
inverse rotate270 = rotate90
inverse t = t

pub point-target :
    (t : Transform) (x y w h : ℕ)
    → x < w
    → y < h
    → w < 2 ^ 31
    → h < 2 ^ 31
    → point t (pos x) (pos y) (pos w) (pos h) ≡ (pos (target t x y w h).0, pos (target t x y w h).1)
unfolding point rect
point-target normal x y w h hx hy hw hh = refl
point-target rotate90 x y w h hx hy hw hh = ground (arith, less_pos h y 1)
point-target rotate180 x y w h hx hy hw hh = ground (arith, less_pos w x 1, less_pos h y 1)
point-target rotate270 x y w h hx hy hw hh = ground (arith, less_pos w x 1)
point-target flipped x y w h hx hy hw hh = ground (arith, less_pos w x 1)
point-target flipped90 x y w h hx hy hw hh = refl
point-target flipped180 x y w h hx hy hw hh = ground (arith, less_pos h y 1)
point-target flipped270 x y w h hx hy hw hh = ground (arith, less_pos w x 1, less_pos h y 1)

target_inside :
    (t : Transform) (x y w h : ℕ)
    → x < w
    → y < h
    → ((target t x y w h).0 < (size t w h).0) × ((target t x y w h).1 < (size t w h).1)
unfolding size
target_inside normal x y w h hx hy = ground arith
target_inside rotate90 x y w h hx hy = ground arith
target_inside rotate180 x y w h hx hy = ground arith
target_inside rotate270 x y w h hx hy = ground arith
target_inside flipped x y w h hx hy = ground arith
target_inside flipped90 x y w h hx hy = ground arith
target_inside flipped180 x y w h hx hy = ground arith
target_inside flipped270 x y w h hx hy = ground arith

target_back :
    (t : Transform) (x y w h : ℕ)
    → x < w
    → y < h
    → (target (inverse t) (target t x y w h).0 (target t x y w h).1 (size t w h).0 (size t w h).1
        ≡ (x, y))
      × (size (inverse t) (size t w h).0 (size t w h).1 ≡ (w, h))
unfolding size
target_back normal x y w h hx hy = (refl, refl)
target_back rotate90 x y w h hx hy = (ground arith, refl)
target_back rotate180 x y w h hx hy = (ground arith, refl)
target_back rotate270 x y w h hx hy = (ground arith, refl)
target_back flipped x y w h hx hy = (ground arith, refl)
target_back flipped90 x y w h hx hy = (refl, refl)
target_back flipped180 x y w h hx hy = (ground arith, refl)
target_back flipped270 x y w h hx hy = (ground arith, refl)

size_small :
    (t : Transform) (w h : ℕ)
    → w < 2 ^ 31
    → h < 2 ^ 31
    → ((size t w h).0 < 2 ^ 31) × ((size t w h).1 < 2 ^ 31)
unfolding size
size_small t w h hw hh = ground arith

-- Each pixel of a `w` by `h` buffer, both sizes within 31 bits, lands on a pixel of the transformed buffer, whose size is `size` of
-- `w` and `h`, and the inverse transform of that buffer takes it back. So a transform puts each pixel
-- somewhere, no two on the same place, and, as the inverse transform does so too, leaves no place empty.
pub point_onto :
    (t : Transform) (x y w h : ℕ)
    → x < w
    → y < h
    → w < 2 ^ 31
    → h < 2 ^ 31
    → let (tw, th) = size t w h in
      (a : ℕ) × (b : ℕ) × (point t (pos x) (pos y) (pos w) (pos h) ≡ (pos a, pos b))
      × (a < tw)
      × (b < th)
      × (point (inverse t) (pos a) (pos b) (pos tw) (pos th) ≡ (pos x, pos y))
      × (size (inverse t) tw th ≡ (w, h))
unfolding size
point_onto t x y w h hx hy hw hh =
    let (a, b) = target t x y w h in
    let there = point-target t x y w h hx hy hw hh in
    let inside = target_inside t x y w h hx hy in
    let small = size_small t w h hw hh in
    let again = target_back t x y w h hx hy in
    let back : point (inverse t) (pos a) (pos b) (pos (size t w h).0) (pos (size t w h).1)
        ≡ (pos x, pos y) =
      point-target (inverse t) a b (size t w h).0 (size t w h).1 inside.0 inside.1 small.0 small.1
      ∙ ap (λ (q : ℕ × ℕ). (pos q.0, pos q.1)) again.0 in
    (a, b, there, inside.0, inside.1, back, again.1)

-- Whether a coordinate is in the interval of this start and length.
unfoldable pub spans : ℤ → ℤ → ℤ → Bool
unfolding ◌+ℤ◌
spans start length p = leb_ℤ start p && ltb_ℤ p (start +ℤ length)

-- Whether a rectangle holds a pixel.
abbrev pub holds : Rect → ℤ × ℤ → Bool
holds r (a, b) = spans r.x r.width a && spans r.y r.height b

spans-less :
    (a length p n : ℕ)
    → a + length ≤ n
    → p < n
    → n < 2 ^ 31
    → spans (less (pos n) (pos a) (pos length)) (pos length) (less (pos n) (pos p) (pos 1))
      ≡ spans (pos a) (pos length) (pos p)
unfolding spans ◌+ℤ◌
spans-less a length p n h hp hn =
    rw (less_pos n a length h hn, less_pos n p 1 (omega arith) hn) (ground arith)

abbrev pub rect_of : ℕ → ℕ → ℕ → ℕ → Rect
rect_of x y width height = record { x = pos x; y = pos y; width = pos width; height = pos height }

-- For a buffer of sizes within 31 bits, a rectangle within it lands on the rectangle of its pixels: this holds the place of a pixel of the buffer
-- if and only if the rectangle holds that pixel.
pub holds-rect :
    (t : Transform) (x y width height px py w h : ℕ)
    → x + width ≤ w
    → y + height ≤ h
    → px < w
    → py < h
    → w < 2 ^ 31
    → h < 2 ^ 31
    → holds
        (rect t (rect_of x y width height) (pos w) (pos h))
        (point t (pos px) (pos py) (pos w) (pos h))
      ≡ holds (rect_of x y width height) (pos px, pos py)
unfolding rect point
holds-rect normal x y width height px py w h bx by hx hy hw hh = refl
holds-rect rotate90 x y width height px py w h bx by hx hy hw hh =
    ground (arith, spans-less y height py h by hy hh)
holds-rect rotate180 x y width height px py w h bx by hx hy hw hh =
    ground (arith, spans-less x width px w bx hx hw, spans-less y height py h by hy hh)
holds-rect rotate270 x y width height px py w h bx by hx hy hw hh =
    ground (arith, spans-less x width px w bx hx hw)
holds-rect flipped x y width height px py w h bx by hx hy hw hh =
    ground (arith, spans-less x width px w bx hx hw)
holds-rect flipped90 x y width height px py w h bx by hx hy hw hh = ground arith
holds-rect flipped180 x y width height px py w h bx by hx hy hw hh =
    ground (arith, spans-less y height py h by hy hh)
holds-rect flipped270 x y width height px py w h bx by hx hy hw hh =
    ground (arith, spans-less x width px w bx hx hw, spans-less y height py h by hy hh)
