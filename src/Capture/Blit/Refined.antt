-- ===== src/Capture/Blit/Refined.antt =====
-- The blit of a captured output without a transform shows its picture, and nothing else changes.
use xwlrvnc.Capture.Blit.Shown.{
  pictured, row_elsewhere, row_lands, IsWhole, blended, from-lt, from_lem, of_from,
}
use xwlrvnc.Base.{
  ℕ, zero, suc, ◌+◌, ◌*◌, ◌<◌, ◌≡◌, refl, sym, ap, ◌∙◌, inl, inr, Bool, true, false, ◌&&◌, ◌||◌,
  arith, Bool-cases, if◌then◌else◌, leb, ◌==◌,
}
use xwlrvnc.Base.Int.{i32, leb_ℤ, ltb_ℤ, neg_part, negsuc, pos, pos_part, ℤ, ◌+ℤ◌, ◌-ℤ◌}
use xwlrvnc.Capture.{Fb, add_i32, as_i32, overlap}
use xwlrvnc.Capture.Overlap.{IsSmall, add_i32_small, from, i32_pos, is_from, overlap-IsMeeting}
use xwlrvnc.Capture.Blit.{
  Source, Span, blit_line, blit_rows, blit_rows_from, empty_span, is_off, row_start, source_row,
  widen,
}
use xwlrvnc.Capture.Blit.Rows.{blit_row-len, channel}
use xwlrvnc.Capture.Reads.{IsSized}

nonneg : (z : ℤ) → ltb_ℤ z (pos 0) ≡ false → neg_part z ≡ 0
nonneg (pos a) h = refl
nonneg (negsuc a) h = ground arith

-- A row changes only bytes.
pub blit_line_frame :
    (damage : Bool) (src : Source) (ox oy dx0 : ℤ) (pixels row : ℕ) (fb : Fb)
    → ((blit_line damage src ox oy dx0 pixels row fb).0.width ≡ fb.width)
      × ((blit_line damage src ox oy dx0 pixels row fb).0.height ≡ fb.height)
      × ((blit_line damage src ox oy dx0 pixels row fb).0.bytes.len ≡ fb.bytes.len)
unfolding blit_line
blit_line_frame damage src ox oy dx0 pixels row fb =
    let dy = add_i32 oy (as_i32 row) in
    let s = source_row src row * src.stride + pos_part (i32 (dx0 -ℤ ox)) * 4 in
    ground (arith, blit_row-len damage src pixels s (row_start fb dx0 dy) fb.bytes)

pub blit_line-IsSized :
    (damage : Bool) (src : Source) (ox oy dx0 : ℤ) (pixels row : ℕ) (fb : Fb)
    → IsSized fb
    → IsSized (blit_line damage src ox oy dx0 pixels row fb).0
blit_line-IsSized damage src ox oy dx0 pixels row fb v =
    let f = blit_line_frame damage src ox oy dx0 pixels row fb in
    record {
      len = ground (arith, v.len);
      width = omega (arith, v.width);
      height = omega (arith, v.height);
    }

-- Either this row is the one, or one of those after it.
choose :
    (a b : Bool) (row f z : ℕ) (g : ℕ → ℕ)
    → (if a && (b && leb (suc row) f) then g f else (if a && (b && row == f) then g row else z))
      ≡ (if a && (b && leb row f) then g f else z)
choose false b row f z g = refl
choose true false row f z g = refl
choose true true row f z g = elim (Bool-cases (row == f)) [
  | inl same ↦ let e : row ≡ f = ground arith in rw e (ground arith)
  | inr other ↦ ground arith
]

module _ (damage : Bool) (src : Source) (ox oy : ℤ) (x y q : ℕ) (w : IsWhole src) (sx : IsSmall ox)
    (sy : IsSmall oy) (hq : q < 3) where
  -- The byte of the channel in the frame buffer, and that in the source for a row of the picture.
  abbrev at : Fb → ℕ
  at fb = fb.bytes.at (y * (fb.width * 4) + (x * 4 + q))

  abbrev of_row : ℕ → ℕ
  of_row row = src.bytes.at (pictured src row * src.stride + (from ox x * 4 + channel src.chan q))

  -- Whether this row of the picture lands on the pixel's.
  abbrev is_row : ℕ → Bool
  is_row row = is_from oy y src.height && row == from oy y

  row_misses :
      (row : ℕ)
      → row < src.height
      → (pos_part (oy +ℤ pos row) == y && neg_part (oy +ℤ pos row) == 0) ≡ false
      → is_row row ≡ false
  row_misses row hr h = elim (Bool-cases (is_row row)) [
    | inl hit ↦
        let f = from_lem oy y src.height row hr (ground arith) (ground arith) in ground arith
    | inr miss ↦ miss
  ]

  row_hits :
      (row : ℕ)
      → row < src.height
      → pos_part (oy +ℤ pos row) ≡ y
      → neg_part (oy +ℤ pos row) ≡ 0
      → is_row row ≡ true
  row_hits row hr e f = let g = of_from oy y src.height row hr e f in ground arith

  blit_line_lem :
      (row : ℕ) (fb : Fb)
      → IsSized fb
      → x < fb.width
      → y < fb.height
      → row < src.height
      → leb_ℤ (overlap ox src.width fb.width).1 (overlap ox src.width fb.width).0 ≡ false
      → (let (dx0, dx1) = overlap ox src.width fb.width in
          at (blit_line damage src ox oy dx0 (pos_part (i32 (dx1 -ℤ dx0))) row fb).0
          ≡ (if is_from ox x src.width && is_row row then of_row row else at fb))
  unfolding blit_line
  blit_line_lem row fb v hx hy hr more =
      let (dx0, dx1) = overlap ox src.width fb.width in
      let pixels = pos_part (i32 (dx1 -ℤ dx0)) in
      let s = source_row src row * src.stride + pos_part (i32 (dx0 -ℤ ox)) * 4 in
      let dy = oy +ℤ pos row in
      let e : add_i32 oy (as_i32 row) ≡ dy = add_i32_small oy row sy (omega (arith, w.height)) in
      let fh = i32_pos fb.height (omega (arith, v.height)) in
      let g : is_off fb dy ≡ (ltb_ℤ dy (pos 0) || leb_ℤ (pos fb.height) dy) = rw fh refl in
      let missed : is_row row ≡ false
          → (if is_from ox x src.width && is_row row then of_row row else at fb) ≡ at fb =
        λ h. rw h (ground arith) in
      rw e (elim (Bool-cases (is_off fb dy)) [
        | inl off ↦ rw off (sym (missed (row_misses row hr (ground arith))))
        | inr on ↦
            let n : neg_part dy ≡ 0 = nonneg dy (ground arith) in
            rw on (elim (Bool-cases (pos_part dy == y)) [
              | inl lands ↦
                  let d : pos_part dy ≡ y = ground arith in
                  elim (Bool-cases (is_from ox x src.width)) [
                    | inl here ↦
                        rw (d, here, row_hits row hr d n)
                          (row_lands damage src ox oy x q w sx sy hq row fb y v hx hy hr here)
                    | inr apart ↦
                        row_elsewhere damage src ox oy x q w sx sy hq s (pos_part dy) fb y v hx more
                          (ground arith)
                        ∙ rw apart refl
                  ]
              | inr misses ↦
                  row_elsewhere damage src ox oy x q w sx sy hq s (pos_part dy) fb y v hx more
                    (ground arith)
                  ∙ sym (missed (row_misses row hr (ground arith)))
            ])
      ])

  -- The same, for an overlap that was worked out before.
  blit_line_at :
      (fw row : ℕ) (fb : Fb)
      → fb.width ≡ fw
      → IsSized fb
      → x < fb.width
      → y < fb.height
      → row < src.height
      → leb_ℤ (overlap ox src.width fw).1 (overlap ox src.width fw).0 ≡ false
      → (let (dx0, dx1) = overlap ox src.width fw in
          at (blit_line damage src ox oy dx0 (pos_part (i32 (dx1 -ℤ dx0))) row fb).0
          ≡ (if is_from ox x src.width && is_row row then of_row row else at fb))
  blit_line_at fw row fb e v hx hy hr more =
      rw (sym e) (blit_line_lem row fb v hx hy hr (rw e more))

  blit_rows_from_lem :
      (fw left row : ℕ) (fb : Fb) (span : Span)
      → fb.width ≡ fw
      → IsSized fb
      → x < fb.width
      → y < fb.height
      → row + left ≡ src.height
      → leb_ℤ (overlap ox src.width fw).1 (overlap ox src.width fw).0 ≡ false
      → (let (dx0, dx1) = overlap ox src.width fw in
          at (blit_rows_from damage src ox oy dx0 (pos_part (i32 (dx1 -ℤ dx0))) left row fb span).0
          ≡ (if is_from ox x src.width && (is_from oy y src.height && leb row (from oy y))
              then of_row (from oy y)
              else at fb))
  unfolding blit_rows_from
  blit_rows_from_lem fw zero row fb span e v hx hy hr more =
      let below : (is_from oy y src.height && leb row (from oy y)) ≡ false =
        elim (Bool-cases (is_from oy y src.height)) [
          | inl on ↦ let lt = from-lt oy y src.height on in ground arith
          | inr off ↦ rw off refl
        ] in
      rw below (ground arith)
  blit_rows_from_lem fw (suc left) row fb span e v hx hy hr more =
      let (dx0, dx1) = overlap ox src.width fw in
      let pixels = pos_part (i32 (dx1 -ℤ dx0)) in
      let line = blit_line damage src ox oy dx0 pixels row fb in
      let f = blit_line_frame damage src ox oy dx0 pixels row fb in
      let next = if line.1 then widen (add_i32 oy (as_i32 row)) span else span in
      let one = blit_line_at fw row fb e v hx hy (omega arith) more in
      let ih =
        blit_rows_from_lem fw left (suc row) line.0 next (f.0 ∙ e)
          (blit_line-IsSized damage src ox oy dx0 pixels row fb v) (omega arith) (omega arith)
          (omega arith) more in
      ih
      ∙ rw one
          (choose (is_from ox x src.width) (is_from oy y src.height) row (from oy y) (at fb) of_row)

-- A source whose rows stand in its bytes is composited, without a transform, into a frame buffer of a
-- matching number of bytes, all places and sizes within 30 bits. Whether or not changes are looked for:
-- each channel of each pixel of the frame buffer is that of the source's pixel which lands there, its
-- rows in reverse order with `y_invert` and its channels in the order of its map, or is as it was if
-- none does.
pub blit_rows_lem :
    (damage : Bool) (src : Source) (ox oy : ℤ) (x y q : ℕ) (fb : Fb)
    → IsWhole src
    → IsSmall ox
    → IsSmall oy
    → q < 3
    → IsSized fb
    → x < fb.width
    → y < fb.height
    → (let out = (blit_rows damage src ox oy fb).0 in
        out.bytes.at (y * (out.width * 4) + (x * 4 + q)) ≡ blended src ox oy fb x y q)
unfolding blit_rows
blit_rows_lem damage src ox oy x y q fb w sx sy hq v hx hy =
    let (dx0, dx1) = overlap ox src.width fb.width in
    let o = overlap-IsMeeting ox src.width fb.width x w.width v.width sx hx in
    elim (Bool-cases (leb_ℤ dx1 dx0)) [
      | inl apart ↦ rw (apart, o.empty apart) refl
      | inr more ↦
          let rows : pos_part (as_i32 src.height) ≡ src.height =
            ap pos_part (i32_pos src.height (omega (arith, w.height))) in
          rw (more, rows)
            (blit_rows_from_lem damage src ox oy x y q w sx sy hq fb.width src.height 0 fb
                empty_span refl v hx hy (omega arith) more
              ∙ ground arith)
    ]
