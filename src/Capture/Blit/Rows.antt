-- ===== src/Capture/Blit/Rows.antt =====
-- What a row of the source leaves in the frame buffer.
use xwlrvnc.Base.{
  ℕ, zero, suc, ◌+◌, ◌-◌, ◌*◌, ◌≤◌, ◌<◌, ◌≡◌, refl, sym, ap, ◌∙◌, inl, inr, Bool, true, false, ◌&&◌,
  ◌||◌, arith, Bool-cases, if◌then◌else◌, ltb, ◌==◌,
}
use xwlrvnc.Capture.{Slice, within}
use xwlrvnc.Capture.Blit.{
  ChannelMap, Source, blit_row, copy_row, is_xrgb, put_pixel, same_bytes, same_pixel, shuffle,
}

-- The place of a channel in a pixel of the source.
abbrev pub channel : ChannelMap → ℕ → ℕ
channel c zero = c.blue
channel c (suc zero) = c.green
channel c (suc (suc q)) = c.red

same_bytes_lem :
    (a : Slice) (i : ℕ) (b : Slice) (j n m : ℕ)
    → same_bytes a i b j n ≡ true
    → m < n
    → a.at (i + m) ≡ b.at (j + m)
same_bytes_lem a i b j zero m h lt = ground arith
same_bytes_lem a i b j (suc n) m h lt = elim (Bool-cases (m == 0)) [
  | inl z ↦ let e : m ≡ 0 = ground arith in rw e (ground arith)
  | inr s ↦
      let e : i + m ≡ suc i + (m - 1) = ground arith in
      let e' : j + m ≡ suc j + (m - 1) = ground arith in
      ap a.at e
      ∙ same_bytes_lem a (suc i) b (suc j) n (m - 1) (ground arith) (ground arith)
      ∙ ap b.at (sym e')
]

-- The three channels of a pixel, by their number.
put_pixel_lem :
    (out : Slice) (d : ℕ) (src : Slice) (s : ℕ) (chan : ChannelMap) (q : ℕ)
    → q < 3
    → (put_pixel out d src s chan).at (d + q) ≡ src.at (s + channel chan q)
put_pixel_lem out d src s chan zero h = ground arith
put_pixel_lem out d src s chan (suc zero) h = ground arith
put_pixel_lem out d src s chan (suc (suc zero)) h = ground arith
put_pixel_lem out d src s chan (suc (suc (suc q))) h = ground arith

same_pixel_lem :
    (out : Slice) (d : ℕ) (src : Slice) (s : ℕ) (chan : ChannelMap) (q : ℕ)
    → same_pixel out d src s chan ≡ true
    → q < 3
    → out.at (d + q) ≡ src.at (s + channel chan q)
same_pixel_lem out d src s chan zero e h = ground arith
same_pixel_lem out d src s chan (suc zero) e h = ground arith
same_pixel_lem out d src s chan (suc (suc zero)) e h = ground arith
same_pixel_lem out d src s chan (suc (suc (suc q))) e h = ground arith

put_pixel_elsewhere :
    (out : Slice) (d : ℕ) (src : Slice) (s : ℕ) (chan : ChannelMap) (i : ℕ)
    → within d 4 i ≡ false
    → (put_pixel out d src s chan).at i ≡ out.at i
put_pixel_elsewhere out d src s chan i h = ground arith

shuffle-len :
    (damage : Bool) (chan : ChannelMap) (src : Slice) (left s d : ℕ) (out : Slice)
    → (shuffle damage chan src left s d out).0.len ≡ out.len
unfolding shuffle
shuffle-len damage chan src zero s d out = refl
shuffle-len damage chan src (suc left) s d out =
    let next = if damage && same_pixel out d src s chan then out else put_pixel out d src s chan in
    ground (arith, shuffle-len damage chan src left (s + 4) (d + 4) next)

shuffle_elsewhere :
    (damage : Bool) (chan : ChannelMap) (src : Slice) (left s d i : ℕ) (out : Slice)
    → within d (left * 4) i ≡ false
    → (shuffle damage chan src left s d out).0.at i ≡ out.at i
unfolding shuffle
shuffle_elsewhere damage chan src zero s d i out h = refl
shuffle_elsewhere damage chan src (suc left) s d i out h =
    let keeps = damage && same_pixel out d src s chan in
    let next = if keeps then out else put_pixel out d src s chan in
    shuffle_elsewhere damage chan src left (s + 4) (d + 4) i next (ground arith)
    ∙ ground (arith, put_pixel_elsewhere out d src s chan i)

-- The pixel that is copied, or was so before.
next_pixel :
    (damage : Bool) (chan : ChannelMap) (src : Slice) (s d q : ℕ) (out : Slice)
    → q < 3
    → (if damage && same_pixel out d src s chan then out else put_pixel out d src s chan).at (d + q)
      ≡ src.at (s + channel chan q)
next_pixel damage chan src s d q out h = elim (Bool-cases (damage && same_pixel out d src s chan)) [
  | inl keeps ↦ rw keeps (same_pixel_lem out d src s chan q (ground arith) h)
  | inr puts ↦ rw puts (put_pixel_lem out d src s chan q h)
]

shuffle_lem :
    (damage : Bool) (chan : ChannelMap) (src : Slice) (left s d p q : ℕ) (out : Slice)
    → p < left
    → q < 3
    → (shuffle damage chan src left s d out).0.at (d + p * 4 + q)
      ≡ src.at (s + p * 4 + channel chan q)
unfolding shuffle
shuffle_lem damage chan src zero s d p q out h hq = ground arith
shuffle_lem damage chan src (suc left) s d zero q out h hq =
    let next = if damage && same_pixel out d src s chan then out else put_pixel out d src s chan in
    let e : d + 0 * 4 + q ≡ d + q = omega arith in
    let e' : s + 0 * 4 + channel chan q ≡ s + channel chan q = omega arith in
    ap (shuffle damage chan src left (s + 4) (d + 4) next).0.at e
    ∙ shuffle_elsewhere damage chan src left (s + 4) (d + 4) (d + q) next (ground arith)
    ∙ next_pixel damage chan src s d q out hq
    ∙ ap src.at (sym e')
shuffle_lem damage chan src (suc left) s d (suc p) q out h hq =
    let next = if damage && same_pixel out d src s chan then out else put_pixel out d src s chan in
    let e : d + suc p * 4 + q ≡ d + 4 + p * 4 + q = omega arith in
    let e' : s + suc p * 4 + channel chan q ≡ s + 4 + p * 4 + channel chan q = omega arith in
    ap (shuffle damage chan src left (s + 4) (d + 4) next).0.at e
    ∙ shuffle_lem damage chan src left (s + 4) (d + 4) p q next (omega arith) hq
    ∙ ap src.at (sym e')

-- Both ends of a row are within what holds them.
abbrev pub HasRoom : Source → (pixels s d : ℕ) → Slice → Type 0
HasRoom src pixels s d out = (s + pixels * 4 ≤ src.bytes.len) × (d + pixels * 4 ≤ out.len)

xrgb_channel : (chan : ChannelMap) (q : ℕ) → is_xrgb chan ≡ true → q < 3 → channel chan q ≡ q
xrgb_channel chan zero e h = ground arith
xrgb_channel chan (suc zero) e h = ground arith
xrgb_channel chan (suc (suc zero)) e h = ground arith
xrgb_channel chan (suc (suc (suc q))) e h = ground arith

copy_row_lem :
    (damage : Bool) (src : Slice) (s d n i : ℕ) (out : Slice)
    → i < n
    → (copy_row damage src s d n out).0.at (d + i) ≡ src.at (s + i)
unfolding copy_row
copy_row_lem damage src s d n i out h = elim (Bool-cases (damage && same_bytes out d src s n)) [
  | inl same ↦ rw same (same_bytes_lem out d src s n i (ground arith) h)
  | inr other ↦ let e : s + (d + i - d) ≡ s + i = omega arith in rw other (ground (arith, e))
]

copy_row_elsewhere :
    (damage : Bool) (src : Slice) (s d n i : ℕ) (out : Slice)
    → within d n i ≡ false
    → (copy_row damage src s d n out).0.at i ≡ out.at i
unfolding copy_row
copy_row_elsewhere damage src s d n i out h = ground arith

copy_row-len :
    (damage : Bool) (src : Slice) (s d n : ℕ) (out : Slice)
    → (copy_row damage src s d n out).0.len ≡ out.len
unfolding copy_row
copy_row-len damage src s d n out = ground arith

pub blit_row_lem :
    (damage : Bool) (src : Source) (pixels s d p q : ℕ) (out : Slice)
    → HasRoom src pixels s d out
    → p < pixels
    → q < 3
    → (blit_row damage src pixels s d out).0.at (d + p * 4 + q)
      ≡ src.bytes.at (s + p * 4 + channel src.chan q)
unfolding blit_row copy_row
blit_row_lem damage src pixels s d p q out hf h hq =
    let room : (ltb src.bytes.len (s + pixels * 4) || ltb out.len (d + pixels * 4)) ≡ false =
      ground arith in
    elim (Bool-cases (is_xrgb src.chan)) [
      | inl native ↦
          let c = xrgb_channel src.chan q native hq in
          let e : d + p * 4 + q ≡ d + (p * 4 + q) = omega arith in
          let e' : s + p * 4 + channel src.chan q ≡ s + (p * 4 + q) = omega (arith, c) in
          rw (room, native)
            (ap (copy_row damage src.bytes s d (pixels * 4) out).0.at e
              ∙ copy_row_lem damage src.bytes s d (pixels * 4) (p * 4 + q) out (omega arith)
              ∙ ap src.bytes.at (sym e'))
      | inr foreign ↦
          rw (room, foreign) (shuffle_lem damage src.chan src.bytes pixels s d p q out h hq)
    ]

pub blit_row_elsewhere :
    (damage : Bool) (src : Source) (pixels s d i : ℕ) (out : Slice)
    → within d (pixels * 4) i ≡ false
    → (blit_row damage src pixels s d out).0.at i ≡ out.at i
unfolding blit_row
blit_row_elsewhere damage src pixels s d i out h = ground (
  arith,
  shuffle_elsewhere damage src.chan src.bytes pixels s d i out h,
  copy_row_elsewhere damage src.bytes s d (pixels * 4) i out h,
)

pub blit_row-len :
    (damage : Bool) (src : Source) (pixels s d : ℕ) (out : Slice)
    → (blit_row damage src pixels s d out).0.len ≡ out.len
unfolding blit_row
blit_row-len damage src pixels s d out = ground (
  arith,
  shuffle-len damage src.chan src.bytes pixels s d out,
  copy_row-len damage src.bytes s d (pixels * 4) out,
)
