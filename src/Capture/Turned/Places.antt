-- ===== src/Capture/Turned/Places.antt =====
-- Where the loops put the pixels of a row: at `target`, without the wrap of `i32`.
use xwlrvnc.Base.{ℕ, ◌+◌, ◌-◌, ◌*◌, ◌^◌, ◌<◌, ◌≡◌, refl, ◌∙◌, arith}
use xwlrvnc.Base.Int.{
  +ℤ_parts, eq_of_parts, i32, i32_id, neg_part, negsuc, pos, pos_part, sub_ℕ, ℤ, ◌+ℤ◌, ◌-ℤ◌,
}
use xwlrvnc.Capture.{add_i32}
use xwlrvnc.Capture.Overlap.{IsSmall, i32_pos, i32_sub}
use xwlrvnc.Capture.Turned.{scale}
use xwlrvnc.Util.Transform.{
  Transform, flipped, flipped180, flipped270, flipped90, less, normal, point, rect, rotate180,
  rotate270, rotate90,
}
use xwlrvnc.Util.Transform.Onto.{point-target, target}

-- Without a wrap.
less_small :
    (a b c : ℕ) → a < 2 ^ 31 → b + c < 2 ^ 30 → less (pos a) (pos b) (pos c) ≡ sub_ℕ a (b + c)
unfolding i32 ◌-ℤ◌
less_small a b c ha hb = ground arith

diff_ℕ : (a b : ℕ) → pos a -ℤ pos b ≡ sub_ℕ a b
unfolding ◌-ℤ◌
diff_ℕ a b = ground arith

one_back : (a : ℕ) → 0 < a → a < 2 ^ 30 → i32 (sub_ℕ a 2 -ℤ sub_ℕ a 1) ≡ negsuc 0
unfolding i32 ◌-ℤ◌
one_back a h ha = ground arith

i32_zero : (z : ℤ) → i32 (z -ℤ z) ≡ pos 0
unfolding i32 ◌-ℤ◌
i32_zero (pos a) = ground arith
i32_zero (negsuc a) = ground arith

back_lem :
    (a : ℕ)
    → 0 < a
    → a < 2 ^ 30
    → i32 (less (pos a) (pos 1) (pos 1) -ℤ less (pos a) (pos 0) (pos 1)) ≡ negsuc 0
back_lem a h ha =
    rw (less_small a 1 1 (omega arith) (omega arith), less_small a 0 1 (omega arith) (omega arith))
      (one_back a h ha)

-- How the place goes on along a row.
abbrev step_of : Transform → ℤ × ℤ
step_of normal = (pos 1, pos 0)
step_of rotate90 = (pos 0, pos 1)
step_of rotate180 = (negsuc 0, pos 0)
step_of rotate270 = (pos 0, negsuc 0)
step_of flipped = (negsuc 0, pos 0)
step_of flipped90 = (pos 0, pos 1)
step_of flipped180 = (pos 1, pos 0)
step_of flipped270 = (pos 0, negsuc 0)

i32_one : i32 (pos 1 -ℤ pos 0) ≡ pos 1
unfolding i32 ◌-ℤ◌
i32_one = refl

step_lem :
    (t : Transform) (by w h : ℕ)
    → 0 < w
    → by < h
    → w < 2 ^ 30
    → h < 2 ^ 30
    → (i32 (
          (point t (pos 1) (pos by) (pos w) (pos h)).0
          -ℤ (point t (pos 0) (pos by) (pos w) (pos h)).0)
        ≡ (step_of t).0)
      × (i32 (
            (point t (pos 1) (pos by) (pos w) (pos h)).1
            -ℤ (point t (pos 0) (pos by) (pos w) (pos h)).1)
          ≡ (step_of t).1)
unfolding point rect
step_lem normal by w h hw hy lw lh = (i32_one, i32_zero (pos by))
step_lem rotate90 by w h hw hy lw lh = (i32_zero _, i32_one)
step_lem rotate180 by w h hw hy lw lh = (back_lem w hw lw, i32_zero _)
step_lem rotate270 by w h hw hy lw lh = (i32_zero (pos by), back_lem w hw lw)
step_lem flipped by w h hw hy lw lh = (back_lem w hw lw, i32_zero (pos by))
step_lem flipped90 by w h hw hy lw lh = (i32_zero (pos by), i32_one)
step_lem flipped180 by w h hw hy lw lh = (i32_one, i32_zero _)
step_lem flipped270 by w h hw hy lw lh = (i32_zero _, back_lem w hw lw)

-- A sum within 31 bits, of a coordinate and what goes on from it.
add_small :
    (a b : ℤ)
    → pos_part a + pos_part b < 2 ^ 31 + neg_part a + neg_part b
    → neg_part a + neg_part b < 2 ^ 31 + pos_part a + pos_part b
    → add_i32 a b ≡ a +ℤ b
add_small a b hi lo = i32_id (a +ℤ b) (omega (arith, +ℤ_parts a b)) (omega (arith, +ℤ_parts a b))

twice :
    (o b c d : ℤ)
    → IsSmall o
    → pos_part b < 2 ^ 30
    → neg_part b < 2 ^ 30
    → pos_part d < 2 ^ 30
    → neg_part d < 2 ^ 30
    → pos_part b + pos_part c + neg_part d ≡ neg_part b + neg_part c + pos_part d
    → add_i32 (add_i32 o b) c ≡ o +ℤ d
twice o b c d h hb hb' hd hd' e =
    let p = +ℤ_parts o b in
    let q = +ℤ_parts (o +ℤ b) c in
    let r = +ℤ_parts o d in
    let s : o +ℤ b +ℤ c ≡ o +ℤ d = eq_of_parts _ _ (omega arith) in
    let inner : add_i32 o b ≡ o +ℤ b =
      add_small o b (omega (arith, h.0, h.1)) (omega (arith, h.0, h.1)) in
    rw inner (add_small (o +ℤ b) c (omega (arith, h.0, h.1)) (omega (arith, h.0, h.1)) ∙ s)

-- The place on an axis, from the first of a row on.
forward :
    (o : ℤ) (bx : ℕ)
    → IsSmall o
    → bx < 2 ^ 30
    → add_i32 (add_i32 o (pos 0)) (scale bx (pos 1)) ≡ o +ℤ pos bx
forward o bx h hx = rw (i32_pos (bx * 1) (omega arith)) (
    twice o (pos 0) (pos (bx * 1)) (pos bx) h (omega arith) (omega arith) hx (omega arith)
      (omega arith))

stay :
    (o : ℤ) (b bx : ℕ)
    → IsSmall o
    → b < 2 ^ 30
    → add_i32 (add_i32 o (pos b)) (scale bx (pos 0)) ≡ o +ℤ pos b
stay o b bx h hb =
    rw (i32_pos (bx * 0) (omega arith))
      (twice o (pos b) (pos (bx * 0)) (pos b) h hb (omega arith) hb (omega arith) (omega arith))

backward :
    (o : ℤ) (w bx : ℕ)
    → IsSmall o
    → bx < w
    → w < 2 ^ 30
    → add_i32 (add_i32 o (pos (w - 0 - 1))) (scale bx (negsuc 0)) ≡ o +ℤ pos (w - bx - 1)
backward o w bx h hx hw = rw (i32_sub 0 (bx * 1) (omega arith) (omega arith)) (
    twice o (pos (w - 0 - 1)) (sub_ℕ 0 (bx * 1)) (pos (w - bx - 1)) h (omega arith) (omega arith)
      (omega arith) (omega arith) (ground arith))

along :
    (t : Transform) (ox oy : ℤ) (bx by w h : ℕ)
    → IsSmall ox
    → IsSmall oy
    → bx < w
    → by < h
    → w < 2 ^ 30
    → h < 2 ^ 30
    → (add_i32 (add_i32 ox (pos (target t 0 by w h).0)) (scale bx (step_of t).0)
        ≡ ox +ℤ pos (target t bx by w h).0)
      × (add_i32 (add_i32 oy (pos (target t 0 by w h).1)) (scale bx (step_of t).1)
          ≡ oy +ℤ pos (target t bx by w h).1)
along normal ox oy bx by w h sx sy hx hy lw lh =
    (forward ox bx sx (omega arith), stay oy by bx sy (omega arith))
along rotate90 ox oy bx by w h sx sy hx hy lw lh =
    (stay ox (h - by - 1) bx sx (omega arith), forward oy bx sy (omega arith))
along rotate180 ox oy bx by w h sx sy hx hy lw lh =
    (backward ox w bx sx hx lw, stay oy (h - by - 1) bx sy (omega arith))
along rotate270 ox oy bx by w h sx sy hx hy lw lh =
    (stay ox by bx sx (omega arith), backward oy w bx sy hx lw)
along flipped ox oy bx by w h sx sy hx hy lw lh =
    (backward ox w bx sx hx lw, stay oy by bx sy (omega arith))
along flipped90 ox oy bx by w h sx sy hx hy lw lh =
    (stay ox by bx sx (omega arith), forward oy bx sy (omega arith))
along flipped180 ox oy bx by w h sx sy hx hy lw lh =
    (forward ox bx sx (omega arith), stay oy (h - by - 1) bx sy (omega arith))
along flipped270 ox oy bx by w h sx sy hx hy lw lh =
    (stay ox (h - by - 1) bx sx (omega arith), backward oy w bx sy hx lw)

-- The pixel `bx` of row `by` is put where the transform takes it.
place_lem :
    (t : Transform) (ox oy : ℤ) (bx by w h : ℕ)
    → IsSmall ox
    → IsSmall oy
    → bx < w
    → by < h
    → w < 2 ^ 30
    → h < 2 ^ 30
    → (let (x0, y0) = point t (pos 0) (pos by) (pos w) (pos h) in
        let (x1, y1) = point t (pos 1) (pos by) (pos w) (pos h) in
        (add_i32 (add_i32 ox x0) (scale bx (i32 (x1 -ℤ x0))) ≡ ox +ℤ pos (target t bx by w h).0)
        × (add_i32 (add_i32 oy y0) (scale bx (i32 (y1 -ℤ y0))) ≡ oy +ℤ pos (target t bx by w h).1))
place_lem t ox oy bx by w h sx sy hx hy lw lh =
    let (ex, ey) = step_lem t by w h (omega arith) hy lw lh in
    let first : point t (pos 0) (pos by) (pos w) (pos h)
        ≡ (pos (target t 0 by w h).0, pos (target t 0 by w h).1) =
      point-target t 0 by w h (omega arith) hy (omega arith) (omega arith) in
    rw (ex, ey, first) (along t ox oy bx by w h sx sy hx hy lw lh)
