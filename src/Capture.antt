-- ===== src/Capture.antt =====
-- bridge/capture.rs: the shared virtual frame buffer. A slice of bytes is its length and the byte at each
-- index. The lock makes each method one step; what is measured of its time is left out, and the clock's
-- reading is an argument. Sums of `i32` wrap, as in a release build.
pub mod Overlap
pub mod Blit
pub mod Turned
pub mod Screen
pub mod Reads
use xwlrvnc.Base.{
  ℕ, zero, suc, ◌+◌, ◌-◌, ◌*◌, ◌/◌, min, Bool, true, false, not, ◌&&◌, ◌||◌, ◌==◌, ltb, leb,
  if◌then◌else◌,
}
use xwlrvnc.Base.Int.{ℤ, pos, pos_part, ◌+ℤ◌, ◌-ℤ◌, max_ℤ, min_ℤ, ltb_ℤ, leb_ℤ, i32}

pub record Slice : Type 0 where
  pub len : ℕ
  pub at : ℕ → ℕ

pub record Fb : Type 0 where
  pub width : ℕ
  pub height : ℕ
  pub bytes : Slice

pub record Framebuffer : Type 0 where
  pub inner : Fb
  pub last_read_ms : ℕ

abbrev pub zeroes : ℕ → Slice
zeroes n = record { len = n; at = λ i. 0 }

unfoldable pub default : Framebuffer
default = record { inner = record { width = 0; height = 0; bytes = zeroes 0 }; last_read_ms = 0 }

-- Whether an index is among the `n` from `start` on.
abbrev pub within : ℕ → ℕ → ℕ → Bool
within start n i = leb start i && ltb i (start + n)

-- `b[start..start + n].fill(v)`.
abbrev pub fill : ℕ → ℕ → ℕ → Slice → Slice
fill start n v b = record b { at = λ i. if within start n i then v else b.at i }

-- `b[start..start + n].copy_from_slice(&src[s..s + n])`.
abbrev pub copy_from : ℕ → ℕ → Slice → ℕ → Slice → Slice
copy_from start n src s b = record b {
  at = λ i. if within start n i then src.at (s + (i - start)) else b.at i;
}

abbrev pub put : ℕ → ℕ → Slice → Slice
put i v b = record b { at = λ j. if j == i then v else b.at j }

-- `as i32` of a `u32`.
abbrev pub as_i32 : ℕ → ℤ
as_i32 n = i32 (pos n)

abbrev pub add_i32 : ℤ → ℤ → ℤ
add_i32 a b = i32 (a +ℤ b)

unfoldable pub read_within : ℕ → ℕ → Framebuffer → Bool
read_within now ms f = not (f.last_read_ms == 0) && ltb (now - f.last_read_ms) ms

unfoldable pub ensure : ℕ → ℕ → Framebuffer → Framebuffer
ensure width height f =
    if not (f.inner.width == width) || not (f.inner.height == height)
    then record f {
      inner = record { width = width; height = height; bytes = zeroes (width * height * 4) };
    }
    else f

-- The overlap of `width` places from `x` on with those of the frame buffer: its first, and the one
-- behind its last.
unfoldable pub overlap : ℤ → ℕ → ℕ → ℤ × ℤ
overlap x width full = (max_ℤ x (pos 0), min_ℤ (add_i32 x (as_i32 width)) (as_i32 full))

-- How many bytes of a row are copied, and from which of its bytes on.
unfoldable pub copied_of : ℤ → ℤ → ℤ → ℕ × ℕ
copied_of x sx0 sx1 =
    if ltb_ℤ sx0 sx1
    then (pos_part (i32 (sx1 -ℤ sx0)) * 4, pos_part (i32 (sx0 -ℤ x)) * 4)
    else (0, 0)

unfoldable pub copied : ℤ → ℕ → ℕ → ℕ × ℕ
copied x width full = let (sx0, sx1) = overlap x width full in copied_of x sx0 sx1

-- The `row_bytes` from `o` on: `n` bytes of the source from `col` on, and zeroes around them.
unfoldable pub splice : (o row_bytes col n : ℕ) → Slice → ℕ → Slice → Slice
splice o row_bytes col n src s dst =
    fill (o + (col + n)) (row_bytes - (col + n)) 0 (copy_from (o + col) n src s (fill o col 0 dst))

-- Whether a row of the rectangle has nothing of the frame buffer.
unfoldable pub is_outside : Fb → ℕ → ℤ → Bool
is_outside fb copy_n sy = copy_n == 0 || (ltb_ℤ sy (pos 0) || leb_ℤ (as_i32 fb.height) sy)

unfoldable pub read_row : Fb → ℤ → ℤ → ℕ → ℕ → Slice → Slice
read_row fb x y width row dst =
    let row_bytes = width * 4 in
    let (copy_n, dst_col) = copied x width fb.width in
    let o = row * row_bytes in
    let sy = add_i32 y (as_i32 row) in
    let s = pos_part sy * (fb.width * 4) + pos_part (max_ℤ x (pos 0)) * 4 in
    if is_outside fb copy_n sy
    then fill o row_bytes 0 dst
    else if leb (s + copy_n) fb.bytes.len
    then splice o row_bytes dst_col copy_n fb.bytes s dst
    else fill o row_bytes 0 dst

-- The rows from `row` on, `left` of them.
unfoldable pub read_rows : Fb → ℤ → ℤ → ℕ → (left row : ℕ) → Slice → Slice
read_rows fb x y width zero row dst = dst
read_rows fb x y width (suc left) row dst =
    read_rows fb x y width left (suc row) (read_row fb x y width row dst)

unfoldable pub read_rect_into : ℕ → ℤ → ℤ → ℕ → ℕ → Slice → Framebuffer → Slice × Framebuffer
read_rect_into now x y width height dst f =
    let g = record f { last_read_ms = now } in
    let row_bytes = width * 4 in
    if row_bytes == 0
    then (fill 0 dst.len 0 dst, g)
    else (read_rows f.inner x y width (min (dst.len / row_bytes) height) 0 dst, g)

unfoldable pub read_rect : ℕ → ℤ → ℤ → ℕ → ℕ → Framebuffer → Slice × Framebuffer
read_rect now x y width height f =
    read_rect_into now x y width height (zeroes (width * 4 * height)) f
