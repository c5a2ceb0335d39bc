-- ===== src/Capture/Turned.antt =====
-- The blit of a rotated or flipped output, and `blit_diff`, which chooses between the two.
pub mod Places
use xwlrvnc.Base.{
  ℕ, zero, suc, ◌+◌, ◌-◌, ◌*◌, ◌^◌, Bool, true, false, not, ◌&&◌, ◌||◌, ltb, leb, if◌then◌else◌,
  Option, none, some,
}
use xwlrvnc.Base.Int.{ℤ, pos, negsuc, pos_part, sub_ℕ, ◌+ℤ◌, ◌-ℤ◌, ltb_ℤ, leb_ℤ, i32}
use xwlrvnc.Util.Boxes.{Rectangle, as_i16, as_u16}
use xwlrvnc.Util.Transform.{Transform, normal, point}
use xwlrvnc.Capture.{Slice, Fb, Framebuffer, as_i32, add_i32}
use xwlrvnc.Capture.Blit.{
  Source, source_row, same_pixel, put_pixel, Span, empty_span, widen, blit_rows,
}

-- What the loops change: the pixels, and the extents of what changed.
pub record Canvas : Type 0 where
  pub fb : Fb
  pub across : Span
  pub down : Span

-- `bx * step` on `i32`.
abbrev pub scale : ℕ → ℤ → ℤ
scale bx (pos n) = i32 (pos (bx * n))
scale bx (negsuc n) = i32 (sub_ℕ 0 (bx * suc n))

abbrev pub is_on : Fb → ℤ → ℤ → Bool
is_on fb dx dy = not (
    ltb_ℤ dx (pos 0)
    || (leb_ℤ (as_i32 fb.width) dx || (ltb_ℤ dy (pos 0) || leb_ℤ (as_i32 fb.height) dy)))

-- One pixel of the source, from `si` on, at its place.
unfoldable pub turn_pixel : Bool → Source → ℕ → ℤ → ℤ → Canvas → Canvas
turn_pixel damage src si dx dy c =
    let di = pos_part dy * (c.fb.width * 4) + pos_part dx * 4 in
    if is_on c.fb dx dy && not (damage && same_pixel c.fb.bytes di src.bytes si src.chan)
    then record {
      fb = record c.fb { bytes = put_pixel c.fb.bytes di src.bytes si src.chan };
      across = widen dx c.across;
      down = widen dy c.down;
    }
    else c

-- The pixels of a row from `bx` on, `left` of them. It starts at `x0` and `y0` and goes on by the steps.
unfoldable pub turn_row :
    Bool → Source → (ox oy x0 y0 step_x step_y : ℤ) (s0 left bx : ℕ) → Canvas → Canvas
turn_row damage src ox oy x0 y0 step_x step_y s0 zero bx c = c
turn_row damage src ox oy x0 y0 step_x step_y s0 (suc left) bx c =
    let dx = add_i32 (add_i32 ox x0) (scale bx step_x) in
    let dy = add_i32 (add_i32 oy y0) (scale bx step_y) in
    turn_row damage src ox oy x0 y0 step_x step_y s0 left (suc bx)
      (turn_pixel damage src (s0 + bx * 4) dx dy c)

-- One row of the picture, of `width` pixels; it is skipped if it is not in the source's bytes.
unfoldable pub turn_line : Bool → Transform → Source → (ox oy : ℤ) (by : ℕ) → Canvas → Canvas
turn_line damage t src ox oy by c =
    let sw = as_i32 src.width in
    let sh = as_i32 src.height in
    let s0 = source_row src by * src.stride in
    let (x0, y0) = point t (pos 0) (pos by) sw sh in
    let (x1, y1) = point t (pos 1) (pos by) sw sh in
    if ltb src.bytes.len (s0 + src.width * 4)
    then c
    else turn_row damage src ox oy x0 y0 (i32 (x1 -ℤ x0)) (i32 (y1 -ℤ y0)) s0 (pos_part sw) 0 c

unfoldable pub turn_from : Bool → Transform → Source → (ox oy : ℤ) (left by : ℕ) → Canvas → Canvas
turn_from damage t src ox oy zero by c = c
turn_from damage t src ox oy (suc left) by c =
    turn_from damage t src ox oy left (suc by) (turn_line damage t src ox oy by c)

unfoldable pub blit_transformed : Bool → Transform → Source → ℤ → ℤ → Fb → Fb × Option Rectangle
blit_transformed damage t src ox oy fb =
    let c =
      turn_from damage t src ox oy (pos_part (as_i32 src.height)) 0
        (record { fb = fb; across = empty_span; down = empty_span }) in
    if leb_ℤ (as_i32 src.width) (pos 0) || leb_ℤ (as_i32 src.height) (pos 0) then (fb, none) else (
      c.fb,
      if damage && leb_ℤ c.across.low c.across.high
          then some (record {
            x = as_i16 c.across.low;
            y = as_i16 c.down.low;
            width = as_u16 ((c.across.high -ℤ c.across.low) +ℤ pos 1);
            height = as_u16 ((c.down.high -ℤ c.down.low) +ℤ pos 1);
          })
          else none,
    )

abbrev pub is_normal : Transform → Bool
is_normal normal = true
is_normal _ = false

unfoldable pub blit_diff :
    Bool → Transform → Source → ℤ → ℤ → Framebuffer → Framebuffer × Option Rectangle
blit_diff damage t src ox oy f =
    let (fb, bbox) =
      if is_normal t
      then blit_rows damage src ox oy f.inner
      else blit_transformed damage t src ox oy f.inner in
    (record f { inner = fb }, bbox)
