-- ===== src/Capture/Blit/Shown.antt =====
-- What the frame buffer shows after a captured output without a transform was composited in.
use native.Mathlib.Nat.{mul-le-mul_right}
use xwlrvnc.Base.{
  ℕ, suc, ap, ◌+◌, ◌-◌, ◌*◌, ◌^◌, ◌≤◌, ◌<◌, ◌≡◌, ◌∙◌, inl, inr, Bool, true, false, ◌&&◌, arith,
  Bool-cases, if◌then◌else◌, ltb, ◌==◌,
}
use xwlrvnc.Base.Int.{i32, leb_ℤ, neg_part, negsuc, pos, pos_part, ℤ, ◌+ℤ◌, ◌-ℤ◌}
use xwlrvnc.Capture.{Fb, overlap, within}
use xwlrvnc.Capture.Overlap.{IsSmall, from, is_from, overlap-IsMeeting}
use xwlrvnc.Capture.Blit.{Source, blit_row, row_start, source_row}
use xwlrvnc.Capture.Blit.Rows.{blit_row_elsewhere, blit_row_lem, channel}
use xwlrvnc.Capture.Reads.{IsSized, row_ends}

-- The rows of a source that are read stand in its bytes.
pub record IsWhole (src : Source) : Type 0 where
  pub room : (src.height - 1) * src.stride + src.width * 4 ≤ src.bytes.len
  pub width : src.width < 2 ^ 30
  pub height : src.height < 2 ^ 30

-- The row of the buffer that shows a row of the picture: counted from the last if it is upside down.
abbrev pub pictured : Source → ℕ → ℕ
pictured src row = if src.y_invert then src.height - suc row else row

source_row-pictured : (src : Source) (row : ℕ) → source_row src row ≡ pictured src row
source_row-pictured src row = ground arith

-- A channel of the pixel at a place after the blit: the source's, where it has one there.
abbrev pub blended : Source → ℤ → ℤ → Fb → ℕ → ℕ → ℕ → ℕ
blended src ox oy fb x y q =
    if is_from ox x src.width && is_from oy y src.height
    then src.bytes.at (pictured src (from oy y) * src.stride + (from ox x * 4 + channel src.chan q))
    else fb.bytes.at (y * (fb.width * 4) + (x * 4 + q))

-- The rows of a pixel are apart from those of another.
within_row :
    (m a b i n d : ℕ) → (a ≡ b → ⊥) → i < m → d + n ≤ m → within (b * m + d) n (a * m + i) ≡ false
within_row m a b i n d ne hi hn = elim (Bool-cases (ltb a b)) [
  | inl lt ↦ let e = row_ends m a b (ground arith) in ground arith
  | inr ge ↦ let e = row_ends m b a (ground arith) in ground arith
]

module _ (damage : Bool) (src : Source) (ox oy : ℤ) (x q : ℕ) (w : IsWhole src) (sx : IsSmall ox)
    (sy : IsSmall oy) (hq : q < 3) where
  source_room :
      (row n : ℕ)
      → row < src.height
      → n ≤ src.width
      → source_row src row * src.stride + n * 4 ≤ src.bytes.len
  source_room row n hr hn =
      let le : source_row src row ≤ src.height - 1 = ground arith in
      omega (
        arith,
        mul-le-mul_right {m = source_row src row} {n = src.height - 1} src.stride le,
        w.room,
      )

  pub row_lands :
      (row : ℕ) (fb : Fb) (y : ℕ)
      → IsSized fb
      → x < fb.width
      → y < fb.height
      → row < src.height
      → is_from ox x src.width ≡ true
      → (let (dx0, dx1) = overlap ox src.width fb.width in
          let s = source_row src row * src.stride + pos_part (i32 (dx0 -ℤ ox)) * 4 in
          (blit_row damage src
              (pos_part (i32 (dx1 -ℤ dx0)))
              s
              (row_start fb dx0 (pos y))
              fb.bytes).0.at
            (y * (fb.width * 4) + (x * 4 + q))
          ≡ src.bytes.at (pictured src row * src.stride + (from ox x * 4 + channel src.chan q)))
  row_lands row fb y v hx hy hr here =
      let (dx0, dx1) = overlap ox src.width fb.width in
      let pixels = pos_part (i32 (dx1 -ℤ dx0)) in
      let skipped = pos_part (i32 (dx0 -ℤ ox)) in
      let s = source_row src row * src.stride + skipped * 4 in
      let p = x - pos_part dx0 in
      let o = overlap-IsMeeting ox src.width fb.width x w.width v.width sx hx in
      let more : leb_ℤ dx1 dx0 ≡ false = ground (arith, o.empty) in
      let inside : within (pos_part dx0) pixels x ≡ true = o.inside more ∙ here in
      let at : y * (fb.width * 4) + (x * 4 + q) ≡ row_start fb dx0 (pos y) + p * 4 + q =
        ground arith in
      let shift : skipped * 4 + p * 4 ≡ from ox x * 4 = o.shift here in
      let flip : source_row src row * src.stride ≡ pictured src row * src.stride =
        ap (λ n. n * src.stride) (source_row-pictured src row) in
      let at' : pictured src row * src.stride + (from ox x * 4 + channel src.chan q)
          ≡ s + p * 4 + channel src.chan q =
        omega (arith, flip) in
      let left : skipped + pixels ≤ src.width = o.left more in
      let room = source_room row (skipped + pixels) hr left in
      let right : pos_part dx0 + pixels ≤ fb.width = o.right more in
      let ends = row_ends (fb.width * 4) y fb.height hy in
      rw (at, at')
        (blit_row_lem damage src pixels s (row_start fb dx0 (pos y)) p q fb.bytes
          (omega arith, omega (arith, v.len)) (ground arith) hq)

  pub row_elsewhere :
      (s dy : ℕ) (fb : Fb) (y : ℕ)
      → IsSized fb
      → x < fb.width
      → leb_ℤ (overlap ox src.width fb.width).1 (overlap ox src.width fb.width).0 ≡ false
      → (dy == y && is_from ox x src.width) ≡ false
      → (let (dx0, dx1) = overlap ox src.width fb.width in
          (blit_row damage src
              (pos_part (i32 (dx1 -ℤ dx0)))
              s
              (row_start fb dx0 (pos dy))
              fb.bytes).0.at
            (y * (fb.width * 4) + (x * 4 + q))
          ≡ fb.bytes.at (y * (fb.width * 4) + (x * 4 + q)))
  row_elsewhere s dy fb y v hx more apart =
      let (dx0, dx1) = overlap ox src.width fb.width in
      let pixels = pos_part (i32 (dx1 -ℤ dx0)) in
      let o = overlap-IsMeeting ox src.width fb.width x w.width v.width sx hx in
      let inside = o.inside more in
      let right : pos_part dx0 + pixels ≤ fb.width = o.right more in
      let i = y * (fb.width * 4) + (x * 4 + q) in
      let off : within (row_start fb dx0 (pos dy)) (pixels * 4) i ≡ false =
        elim (Bool-cases (dy == y)) [
          | inl same ↦ let e : dy ≡ y = ground arith in ground (arith, e)
          | inr other ↦
              within_row (fb.width * 4) y dy (x * 4 + q) (pixels * 4) (pos_part dx0 * 4)
                (λ e. ground arith) (omega arith) (omega arith)
        ] in
      blit_row_elsewhere damage src pixels s (row_start fb dx0 (pos dy)) i fb.bytes off

-- The row of a source that lands on a place.
pub from_lem :
    (o : ℤ) (p n row : ℕ)
    → row < n
    → is_from o p n ≡ true
    → row ≡ from o p
    → (pos_part (o +ℤ pos row) ≡ p) × (neg_part (o +ℤ pos row) ≡ 0)
unfolding ◌+ℤ◌ ◌-ℤ◌
from_lem (pos a) p n row h e f = ground arith
from_lem (negsuc a) p n row h e f = ground arith

pub of_from :
    (o : ℤ) (p n row : ℕ)
    → row < n
    → pos_part (o +ℤ pos row) ≡ p
    → neg_part (o +ℤ pos row) ≡ 0
    → (is_from o p n ≡ true) × (row ≡ from o p)
unfolding ◌+ℤ◌ ◌-ℤ◌
of_from (pos a) p n row h e f = ground arith
of_from (negsuc a) p n row h e f = ground arith

pub from-lt : (o : ℤ) (p n : ℕ) → is_from o p n ≡ true → from o p < n
unfolding ◌+ℤ◌ ◌-ℤ◌
from-lt (pos a) p n e = ground arith
from-lt (negsuc a) p n e = ground arith
