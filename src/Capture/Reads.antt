-- ===== src/Capture/Reads.antt =====
-- What a read of a rectangle hands out.
use native.Mathlib.Nat.{mul-le-mul_right, add-mul, one-mul, le-div_iff_mul-le}
use xwlrvnc.Base.{
  ℕ, zero, suc, ◌+◌, ◌-◌, ◌*◌, ◌/◌, ◌^◌, ◌≤◌, ◌<◌, min, ◌≡◌, refl, sym, ap, ◌∙◌, inl, inr, true,
  false, not, ◌&&◌, arith, Bool-cases, if◌then◌else◌, leb, ◌==◌,
}
use xwlrvnc.Base.Int.{max_ℤ, pos, pos_part, ℤ}
use xwlrvnc.Capture.{
  Fb, Framebuffer, Slice, add_i32, as_i32, copied, fill, is_outside, read_rect_into, read_row,
  read_rows, splice, within,
}
use xwlrvnc.Capture.Overlap.{IsSmall, add_i32_small, copied-IsRowPart, i32_pos, is_place, place}

-- A frame buffer has four bytes for each of its pixels.
pub record IsSized (fb : Fb) : Type 0 where
  pub len : fb.bytes.len ≡ fb.height * (fb.width * 4)
  pub width : fb.width < 2 ^ 30
  pub height : fb.height < 2 ^ 30

leb-true : (m n : ℕ) → m ≤ n → leb m n ≡ true
leb-true m n h = ground arith

-- A byte of the pixel that is shown `c` places from `x` on and `r` rows from `y` on: nothing is shown
-- outside the frame buffer.
abbrev pub shown : Fb → ℤ → ℤ → ℕ → ℕ → ℕ → ℕ
shown fb x y r c k =
    if is_place x c fb.width && is_place y r fb.height
    then fb.bytes.at (place y r * (fb.width * 4) + (place x c * 4 + k))
    else 0

-- A row ends where the next begins.
pub row_ends : (m a b : ℕ) → a < b → a * m + m ≤ b * m
row_ends m a b h =
    omega (arith, mul-le-mul_right {m = suc a} {n = b} m (omega arith), add-mul a 1 m, one-mul m)

splice_at :
    (o rb col n s j : ℕ) (src dst : Slice)
    → j < rb
    → col + n ≤ rb
    → (splice o rb col n src s dst).at (o + j)
      ≡ (if within col n j then src.at (s + (j - col)) else 0)
unfolding splice
splice_at o rb col n s j src dst hj h =
    let e : o + j - (o + col) ≡ j - col = omega arith in ground arith

fill_at : (o rb j : ℕ) (dst : Slice) → j < rb → (fill o rb 0 dst).at (o + j) ≡ 0
fill_at o rb j dst h = ground arith

splice_outside :
    (o rb col n s i : ℕ) (src dst : Slice)
    → within o rb i ≡ false
    → col + n ≤ rb
    → (splice o rb col n src s dst).at i ≡ dst.at i
unfolding splice
splice_outside o rb col n s i src dst hi h = ground arith

module _ (fb : Fb) (x y : ℤ) (w c k row : ℕ) (v : IsSized fb) (hx : IsSmall x) (hy : IsSmall y)
    (hw : w < 2 ^ 30) (hc : c < w) (hk : k < 4) (hr : row < 2 ^ 30) where
  outside_lem :
      (is_place x c fb.width && is_place y row fb.height) ≡ true
      → is_outside fb (copied x w fb.width).0 (add_i32 y (as_i32 row)) ≡ false
  unfolding is_outside
  outside_lem h =
      let o = copied-IsRowPart x c k w fb.width hc hk hw v.width hx in
      rw (add_i32_small y row hy hr, i32_pos fb.height (omega (arith, v.height)))
        (ground (arith, o.inside))

  row_outside :
      is_place y row fb.height ≡ false
      → is_outside fb (copied x w fb.width).0 (add_i32 y (as_i32 row)) ≡ true
  unfolding is_outside
  row_outside h =
      rw (add_i32_small y row hy hr, i32_pos fb.height (omega (arith, v.height))) (ground arith)

  row_at :
      (dst : Slice)
      → (let n = (copied x w fb.width).0 in
          let col = (copied x w fb.width).1 in
          let j = c * 4 + k in
          let sy = add_i32 y (as_i32 row) in
          let s = pos_part sy * (fb.width * 4) + pos_part (max_ℤ x (pos 0)) * 4 in
          (read_row fb x y w row dst).at (row * (w * 4) + j) ≡ (
            if not (is_outside fb n sy) && (leb (s + n) fb.bytes.len && within col n j)
            then fb.bytes.at (s + (j - col))
            else 0))
  unfolding read_row
  row_at dst =
      let n = (copied x w fb.width).0 in
      let col = (copied x w fb.width).1 in
      let j = c * 4 + k in
      let sy = add_i32 y (as_i32 row) in
      let s = pos_part sy * (fb.width * 4) + pos_part (max_ℤ x (pos 0)) * 4 in
      let fits = (copied-IsRowPart x c k w fb.width hc hk hw v.width hx).fits in
      let a = splice_at (row * (w * 4)) (w * 4) col n s j fb.bytes dst (omega arith) fits in
      elim (Bool-cases (is_outside fb n sy)) [
        | inl out ↦ rw out (fill_at (row * (w * 4)) (w * 4) j dst (omega arith))
        | inr here ↦ rw here (elim (Bool-cases (leb (s + n) fb.bytes.len)) [
          | inl le ↦ rw le a
          | inr gt ↦ rw gt (fill_at (row * (w * 4)) (w * 4) j dst (omega arith))
        ])
      ]

  fits_lem :
      (p : ℕ)
      → pos_part (add_i32 y (as_i32 row)) ≡ p
      → p < fb.height
      → is_place x c fb.width ≡ true
      → leb
          (pos_part (add_i32 y (as_i32 row)) * (fb.width * 4)
            + pos_part (max_ℤ x (pos 0)) * 4
            + (copied x w fb.width).0)
          fb.bytes.len
        ≡ true
  fits_lem p e h here =
      let o = copied-IsRowPart x c k w fb.width hc hk hw v.width hx in
      let ends = row_ends (fb.width * 4) p fb.height h in
      let overlap_ends : pos_part (max_ℤ x (pos 0)) * 4 + (copied x w fb.width).0 ≤ fb.width * 4 =
        ground (arith, o.inside, o.ends) in
      rw e (leb-true _ _ (omega (arith, v.len)))

  read_row_lem :
      (dst : Slice)
      → (read_row fb x y w row dst).at (row * (w * 4) + (c * 4 + k)) ≡ shown fb x y row c k
  read_row_lem dst =
      let o = copied-IsRowPart x c k w fb.width hc hk hw v.width hx in
      let sy = add_i32_small y row hy hr in
      elim (Bool-cases (is_place y row fb.height)) [
        | inl down ↦ elim (Bool-cases (is_place x c fb.width)) [
          | inl here ↦
              let n = (copied x w fb.width).0 in
              let col = (copied x w fb.width).1 in
              let s =
                pos_part (add_i32 y (as_i32 row)) * (fb.width * 4)
                + pos_part (max_ℤ x (pos 0)) * 4 in
              let inside = o.inside ∙ here in
              let fits : leb (s + n) fb.bytes.len ≡ true =
                fits_lem (place y row) (ap pos_part sy) (ground arith) here in
              let place_lem : s + (c * 4 + k - col)
                  ≡ place y row * (fb.width * 4) + (place x c * 4 + k) =
                rw sy (omega (arith, o.source here)) in
              row_at dst
              ∙ rw (outside_lem (ground arith), fits, inside, down, here) (ap fb.bytes.at place_lem)
          | inr off ↦ row_at dst ∙ rw (o.inside, off) (ground arith)
        ]
        | inr off ↦ row_at dst ∙ rw (row_outside off, off) (ground arith)
      ]

module _ (fb : Fb) (x y : ℤ) (w c k : ℕ) (v : IsSized fb) (hx : IsSmall x) (hy : IsSmall y)
    (hw : w < 2 ^ 30) (hc : c < w) (hk : k < 4) where
  -- The byte of the pixel in a row of what is handed out.
  abbrev index : ℕ → ℕ
  index r = r * (w * 4) + (c * 4 + k)

  read_row_elsewhere :
      (row i : ℕ) (dst : Slice)
      → within (row * (w * 4)) (w * 4) i ≡ false
      → (read_row fb x y w row dst).at i ≡ dst.at i
  unfolding read_row
  read_row_elsewhere row i dst h =
      let n = (copied x w fb.width).0 in
      let col = (copied x w fb.width).1 in
      let sy = add_i32 y (as_i32 row) in
      let s = pos_part sy * (fb.width * 4) + pos_part (max_ℤ x (pos 0)) * 4 in
      let fits = (copied-IsRowPart x c k w fb.width hc hk hw v.width hx).fits in
      let a = splice_outside (row * (w * 4)) (w * 4) col n s i fb.bytes dst h fits in
      elim (Bool-cases (is_outside fb n sy)) [
        | inl out ↦ rw out (ground arith)
        | inr here ↦ rw here (elim (Bool-cases (leb (s + n) fb.bytes.len)) [
          | inl le ↦ rw le a
          | inr gt ↦ rw gt (ground arith)
        ])
      ]

  read_rows_above :
      (left row r : ℕ) (dst : Slice)
      → r < row
      → (read_rows fb x y w left row dst).at (index r) ≡ dst.at (index r)
  unfolding read_rows
  read_rows_above zero row r dst h = refl
  read_rows_above (suc left) row r dst h =
      read_rows_above left (suc row) r (read_row fb x y w row dst) (omega arith)
      ∙ read_row_elsewhere row (index r) dst (let e = row_ends (w * 4) r row h in ground arith)

  read_rows_lem :
      (left row r : ℕ) (dst : Slice)
      → row ≤ r
      → r < row + left
      → row + left < 2 ^ 30
      → (read_rows fb x y w left row dst).at (index r) ≡ shown fb x y r c k
  unfolding read_rows
  read_rows_lem zero row r dst lo hi hl = ground arith
  read_rows_lem (suc left) row r dst lo hi hl = elim (Bool-cases (r == row)) [
    | inl here ↦
        let e : r ≡ row = ground arith in
        read_rows_above left (suc row) r (read_row fb x y w row dst) (omega arith)
        ∙ ap (λ q. (read_row fb x y w q dst).at (index r)) (sym e)
        ∙ read_row_lem fb x y w c k r v hx hy hw hc hk (omega arith) dst
    | inr other ↦
        read_rows_lem left (suc row) r (read_row fb x y w row dst) (ground arith) (omega arith)
          (omega arith)
  ]

-- A read of a rectangle, of 30-bit places and sizes, into a buffer with room for it. In row `r`, the four
-- bytes of the `c`-th pixel are those of the pixel of the frame buffer at that place; where the
-- rectangle is outside the frame buffer they are zero. The time of the read is noted.
pub read_rect_into_lem :
    (now : ℕ) (x y : ℤ) (width height : ℕ) (dst : Slice) (f : Framebuffer) (r c k : ℕ)
    → IsSized f.inner
    → IsSmall x
    → IsSmall y
    → width < 2 ^ 30
    → height < 2 ^ 30
    → height * (width * 4) ≤ dst.len
    → r < height
    → c < width
    → k < 4
    → ((read_rect_into now x y width height dst f).0.at (r * (width * 4) + (c * 4 + k))
        ≡ shown f.inner x y r c k)
      × ((read_rect_into now x y width height dst f).1.last_read_ms ≡ now)
unfolding read_rect_into
read_rect_into_lem now x y width height dst f r c k v hx hy hw hh room hr hc hk =
    let positive : (width * 4 == 0) ≡ false = ground arith in
    let rows : min (dst.len / (width * 4)) height ≡ height =
      let le =
        (le-div_iff_mul-le {k = width * 4} {x = height} {y = dst.len} (omega arith)).1 room in
      omega arith in
    (
      rw (positive, rows)
          (read_rows_lem f.inner x y width c k v hx hy hw hc hk height 0 r dst (omega arith)
            (omega arith) (omega arith)),
      rw positive refl,
    )
