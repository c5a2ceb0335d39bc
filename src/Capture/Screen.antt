-- ===== src/Capture/Screen.antt =====
-- A frame buffer as its clients see it: what they read is what was composited in.
use native.Mathlib.Nat.{mul_comm, mul_assoc}
use xwlrvnc.Base.{
  ℕ, zero, suc, ◌+◌, ◌*◌, ◌^◌, ◌≤◌, ◌<◌, ◌≡◌, refl, ap, ◌∙◌, inl, inr, Bool, not, ◌&&◌, ◌||◌, arith,
  Bool-cases, if◌then◌else◌, ◌==◌,
}
use xwlrvnc.Base.Int.{i32, leb_ℤ, pos_part, ℤ, ◌-ℤ◌}
use xwlrvnc.Capture.{Fb, Framebuffer, Slice, add_i32, as_i32, ensure, overlap, read_rect_into}
use xwlrvnc.Capture.Overlap.{IsSmall, is_place, place}
use xwlrvnc.Capture.Blit.{Source, Span, blit_line, blit_rows, blit_rows_from, empty_span, widen}
use xwlrvnc.Capture.Reads.{IsSized, read_rect_into_lem}
use xwlrvnc.Capture.Blit.Shown.{IsWhole, blended}
use xwlrvnc.Capture.Blit.Refined.{blit_line-IsSized, blit_line_frame, blit_rows_lem}
use xwlrvnc.Capture.Turned.{blit_diff}
use xwlrvnc.Util.Transform.{normal}

pub ensure-IsSized :
    (width height : ℕ) (f : Framebuffer)
    → width < 2 ^ 30
    → height < 2 ^ 30
    → IsSized f.inner
    → IsSized (ensure width height f).inner
unfolding ensure
ensure-IsSized width height f hw hh v =
    elim (Bool-cases (not (f.inner.width == width) || not (f.inner.height == height))) [
      | inl resized ↦
          let len : width * height * 4 ≡ height * (width * 4) =
            ap (λ n. n * 4) (mul_comm width height) ∙ mul_assoc height width 4 in
          rw resized (record { len = len; width = hw; height = hh })
      | inr kept ↦ rw kept v
    ]

blit_rows_from-IsSized :
    (damage : Bool) (src : Source) (ox oy dx0 : ℤ) (pixels left row : ℕ) (fb : Fb) (span : Span)
    → IsSized fb
    → IsSized (blit_rows_from damage src ox oy dx0 pixels left row fb span).0
      × ((blit_rows_from damage src ox oy dx0 pixels left row fb span).0.width ≡ fb.width)
      × ((blit_rows_from damage src ox oy dx0 pixels left row fb span).0.height ≡ fb.height)
unfolding blit_rows_from
blit_rows_from-IsSized damage src ox oy dx0 pixels zero row fb span v = (v, refl, refl)
blit_rows_from-IsSized damage src ox oy dx0 pixels (suc left) row fb span v =
    let line = blit_line damage src ox oy dx0 pixels row fb in
    let f = blit_line_frame damage src ox oy dx0 pixels row fb in
    let (s, w, h) =
      blit_rows_from-IsSized damage src ox oy dx0 pixels left (suc row) line.0
        (if line.1 then widen (add_i32 oy (as_i32 row)) span else span)
        (blit_line-IsSized damage src ox oy dx0 pixels row fb v) in
    (s, w ∙ f.0, h ∙ f.1)

pub blit_rows-IsSized :
    (damage : Bool) (src : Source) (ox oy : ℤ) (fb : Fb)
    → IsSized fb
    → IsSized (blit_rows damage src ox oy fb).0
      × ((blit_rows damage src ox oy fb).0.width ≡ fb.width)
      × ((blit_rows damage src ox oy fb).0.height ≡ fb.height)
unfolding blit_rows
blit_rows-IsSized damage src ox oy fb v =
    let (dx0, dx1) = overlap ox src.width fb.width in
    elim (Bool-cases (leb_ℤ dx1 dx0)) [
      | inl apart ↦ rw apart (v, refl, refl)
      | inr more ↦ rw more (
          blit_rows_from-IsSized damage src ox oy dx0 (pos_part (i32 (dx1 -ℤ dx0)))
            (pos_part (as_i32 src.height)) 0 fb empty_span v)
    ]

-- An output without a transform is captured, and then a client reads a rectangle, all places and sizes
-- within 30 bits, the source's rows within its bytes and the buffer with room for the rectangle. Each
-- channel of each pixel it gets is that of the captured output, where that covers the place on the
-- screen; what the frame buffer showed there before, where it does not; and zero off the screen.
pub read_rect_into-blit_diff :
    (damage : Bool) (src : Source) (ox oy : ℤ) (now : ℕ) (x y : ℤ) (width height : ℕ) (dst : Slice)
    (f : Framebuffer) (r c q : ℕ)
    → IsWhole src
    → IsSmall ox
    → IsSmall oy
    → IsSized f.inner
    → IsSmall x
    → IsSmall y
    → width < 2 ^ 30
    → height < 2 ^ 30
    → height * (width * 4) ≤ dst.len
    → r < height
    → c < width
    → q < 3
    → (read_rect_into now x y width height dst (blit_diff damage normal src ox oy f).0).0.at
        (r * (width * 4) + (c * 4 + q))
      ≡ (if is_place x c f.inner.width && is_place y r f.inner.height
          then blended src ox oy f.inner (place x c) (place y r) q
          else 0)
unfolding blit_diff
read_rect_into-blit_diff damage src ox oy now x y width height dst f r c q w sx sy v hx hy hw hh
      room hr hc hq =
    let g = record f { inner = (blit_rows damage src ox oy f.inner).0 } in
    let (sized, same_width, same_height) = blit_rows-IsSized damage src ox oy f.inner v in
    (read_rect_into_lem now x y width height dst g r c q sized hx hy hw hh room hr hc
      (omega arith)).0
    ∙ elim (Bool-cases (is_place x c f.inner.width && is_place y r f.inner.height)) [
      | inl on ↦
          let picture =
            blit_rows_lem damage src ox oy (place x c) (place y r) q f.inner w sx sy hq v
              (ground arith) (ground arith) in
          ground (arith, picture, same_width, same_height)
      | inr off ↦ ground (arith, same_width, same_height)
    ]
