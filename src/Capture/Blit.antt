-- ===== src/Capture/Blit.antt =====
-- Compositing a captured output into the frame buffer: `blit_diff` and its two ways. `row` and the
-- coordinates of a pixel of the source are numbers, for they run from 0 to a size.
pub mod Rows
pub mod Shown
pub mod Refined
use xwlrvnc.Base.{
  ℕ, zero, suc, ◌+◌, ◌-◌, ◌*◌, ◌^◌, Bool, true, false, not, ◌&&◌, ◌||◌, ◌==◌, ltb, leb,
  if◌then◌else◌, Option, none, some,
}
use xwlrvnc.Base.Int.{ℤ, pos, negsuc, pos_part, ◌+ℤ◌, ◌-ℤ◌, max_ℤ, min_ℤ, ltb_ℤ, leb_ℤ, i32}
use xwlrvnc.Util.Boxes.{Rectangle, as_i16, as_u16}
use xwlrvnc.Util.Transform.{Transform, normal, point}
use xwlrvnc.Capture.{Slice, Fb, Framebuffer, copy_from, put, as_i32, add_i32, overlap}

-- The places of blue, green and red in a pixel.
pub record ChannelMap : Type 0 where
  pub blue : ℕ
  pub green : ℕ
  pub red : ℕ

abbrev pub is_xrgb : ChannelMap → Bool
is_xrgb c = c.blue == 0 && (c.green == 1 && c.red == 2)

pub record Source : Type 0 where
  pub width : ℕ
  pub height : ℕ
  pub stride : ℕ
  pub bytes : Slice
  pub y_invert : Bool
  pub chan : ChannelMap

-- The row of the buffer for a row of the picture.
abbrev pub source_row : Source → ℕ → ℕ
source_row src row = if src.y_invert then src.height - 1 - row else row

-- `a[i..i + n] == b[j..j + n]`.
abbrev pub same_bytes : Slice → ℕ → Slice → ℕ → ℕ → Bool
same_bytes a i b j zero = true
same_bytes a i b j (suc n) = a.at i == b.at j && same_bytes a (suc i) b (suc j) n

-- Whether a pixel has these channels.
abbrev pub same_pixel : Slice → ℕ → Slice → ℕ → ChannelMap → Bool
same_pixel out di src si chan =
    out.at di == src.at (si + chan.blue)
    && (out.at (di + 1) == src.at (si + chan.green) && out.at (di + 2) == src.at (si + chan.red))

abbrev pub put_pixel : Slice → ℕ → Slice → ℕ → ChannelMap → Slice
put_pixel out di src si chan = put (di + 3) 0xff (
    put (di + 2) (src.at (si + chan.red))
      (put (di + 1) (src.at (si + chan.green)) (put di (src.at (si + chan.blue)) out)))

-- The pixels of a row in another byte order, `left` of them, and whether one was changed.
unfoldable pub shuffle : Bool → ChannelMap → Slice → (left s d : ℕ) → Slice → Slice × Bool
shuffle damage chan src zero s d out = (out, false)
shuffle damage chan src (suc left) s d out =
    let keeps = damage && same_pixel out d src s chan in
    let (rest, changed) =
      shuffle damage chan src left (s + 4) (d + 4)
        (if keeps then out else put_pixel out d src s chan) in
    (rest, not keeps || changed)

-- A row in the order of the frame buffer; without damage it is not compared.
unfoldable pub copy_row : Bool → Slice → (s d n : ℕ) → Slice → Slice × Bool
copy_row damage src s d n out =
    if damage && same_bytes out d src s n then (out, false) else (copy_from d n src s out, true)

-- One row of `pixels` pixels from `s` on to those from `d` on, and whether it counts as changed.
unfoldable pub blit_row : Bool → Source → (pixels s d : ℕ) → Slice → Slice × Bool
blit_row damage src pixels s d out =
    let n = pixels * 4 in
    if ltb src.bytes.len (s + n) || ltb out.len (d + n)
    then (out, false)
    else if is_xrgb src.chan
    then (if damage && same_bytes out d src.bytes s n
        then (out, false)
        else (copy_from d n src.bytes s out, true))
    else shuffle damage src.chan src.bytes pixels s d out

-- The extent of what changed; the first is the start of a fold.
pub record Span : Type 0 where
  pub low : ℤ
  pub high : ℤ

abbrev pub empty_span : Span
empty_span = record { low = pos (2 ^ 31 - 1); high = negsuc (2 ^ 31 - 1) }

abbrev pub widen : ℤ → Span → Span
widen z s = record { low = min_ℤ s.low z; high = max_ℤ s.high z }

-- Where a row lands, for an overlap that starts at `dx0`.
abbrev pub row_start : Fb → ℤ → ℤ → ℕ
row_start fb dx0 dy = pos_part dy * (fb.width * 4) + pos_part dx0 * 4

-- Whether a row is not on the screen.
abbrev pub is_off : Fb → ℤ → Bool
is_off fb dy = ltb_ℤ dy (pos 0) || leb_ℤ (as_i32 fb.height) dy

-- What row `row` of the picture leaves behind, and whether it counts as changed.
unfoldable pub blit_line : Bool → Source → ℤ → ℤ → (dx0 : ℤ) (pixels row : ℕ) → Fb → Fb × Bool
blit_line damage src ox oy dx0 pixels row fb =
    let dy = add_i32 oy (as_i32 row) in
    let s = source_row src row * src.stride + pos_part (i32 (dx0 -ℤ ox)) * 4 in
    let (out, changed) = blit_row damage src pixels s (row_start fb dx0 dy) fb.bytes in
    if is_off fb dy then (fb, false) else (record fb { bytes = out }, changed)

-- The rows from `row` on, `left` of them.
unfoldable pub blit_rows_from :
    Bool → Source → ℤ → ℤ → (dx0 : ℤ) (pixels left row : ℕ) → Fb → Span → Fb × Span
blit_rows_from damage src ox oy dx0 pixels zero row fb span = (fb, span)
blit_rows_from damage src ox oy dx0 pixels (suc left) row fb span =
    let (next, changed) = blit_line damage src ox oy dx0 pixels row fb in
    blit_rows_from damage src ox oy dx0 pixels left (suc row) next
      (if changed then widen (add_i32 oy (as_i32 row)) span else span)

unfoldable pub blit_rows : Bool → Source → ℤ → ℤ → Fb → Fb × Option Rectangle
blit_rows damage src ox oy fb =
    let (dx0, dx1) = overlap ox src.width fb.width in
    let pixels = pos_part (i32 (dx1 -ℤ dx0)) in
    let (out, span) =
      blit_rows_from damage src ox oy dx0 pixels (pos_part (as_i32 src.height)) 0 fb empty_span in
    if leb_ℤ dx1 dx0 then (fb, none) else (
      out,
      if damage && leb_ℤ span.low span.high
          then some (record {
            x = as_i16 dx0;
            y = as_i16 span.low;
            width = as_u16 (dx1 -ℤ dx0);
            height = as_u16 ((span.high -ℤ span.low) +ℤ pos 1);
          })
          else none,
    )
