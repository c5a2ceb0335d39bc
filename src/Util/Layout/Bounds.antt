-- ===== src/Util/Layout/Bounds.antt =====
-- Where points of the screen land: always somewhere, and within the extents.
use xwlrvnc.Base.{
  ℕ, ◌≤◌, min, ◌≡◌, refl, ap, ◌∙◌, inl, inr, Bool, true, Option, none, some, List, [], ◌∷◌, arith,
  Bool-cases, Option-cases, All, find,
}
use xwlrvnc.Util.Layout.{
  Layout, OutputRect, Target, clamp, contains_point, distance, layout_of, nearer, nearest, off,
  or_nearest, output_for, place, to_logical,
}
use xwlrvnc.Base.Int.{i32, leb_ℤ, max_ℤ, min_ℤ, negsuc, pos, pos_part, ℤ, ◌+ℤ◌, ◌-ℤ◌, ◌≤ℤ◌}

-- Sides as the screen has them: places of 16 bits that are not negative, and sizes of at least a pixel.
abbrev pub IsSide : ℤ → ℤ → Type 0
IsSide base len = (pos 0 ≤ℤ base) × (base ≤ℤ pos 32767) × (pos 1 ≤ℤ len) × (len ≤ℤ pos 65535)

abbrev pub IsProper : OutputRect → Type 0
IsProper o = IsSide o.px o.pw × IsSide o.py o.ph

ordered_side :
    (base len : ℤ) → IsSide base len → leb_ℤ base (i32 (i32 (base +ℤ len) -ℤ pos 1)) ≡ true
unfolding i32 ◌+ℤ◌ ◌-ℤ◌
ordered_side (pos b) (pos n) h = ground arith
ordered_side (pos b) (negsuc n) h = ground arith
ordered_side (negsuc b) len h = ground arith

clamp_lem : (z lo hi : ℤ) → leb_ℤ lo hi ≡ true → clamp z lo hi ≡ some (min_ℤ (max_ℤ z lo) hi)
clamp_lem z lo hi h = rw h refl

distance_total : (x y : ℤ) (o : OutputRect) → IsProper o → (d : ℤ) × (distance x y o ≡ some d)
distance_total x y o h =
    let dx = ordered_side o.px o.pw h.0 in
    let dy = ordered_side o.py o.ph h.1 in rw (dx, dy) (_, refl)

abbrev HasProper : Option (ℤ × OutputRect) → Type 0
HasProper none = Unit
HasProper (some (d, o)) = IsProper o

nearer-IsProper :
    (d : ℤ) (o : OutputRect) (best : Option (ℤ × OutputRect))
    → IsProper o
    → HasProper best
    → IsProper (nearer (d, o) best).1
nearer-IsProper d o none h b = h
nearer-IsProper d o (some (e, p)) h b = elim (Bool-cases (leb_ℤ d e)) [
  | inl le ↦ rw le h
  | inr gt ↦ rw gt b
]

nearest_total :
    (x y : ℤ) (os : List OutputRect)
    → All IsProper os
    → (best : Option (ℤ × OutputRect)) × HasProper best × (nearest x y os ≡ some best)
nearest_total x y [] h = (none, tt, refl)
nearest_total x y (o ∷ os) h =
    let (d, e) = distance_total x y o h.0 in
    let (best, b, f) = nearest_total x y os h.1 in
    (some (nearer (d, o) best), nearer-IsProper d o best h.0 b, rw (e, f) refl)

find-IsProper :
    (p : OutputRect → Bool) (os : List OutputRect) (o : OutputRect)
    → All IsProper os
    → find p os ≡ some o
    → IsProper o
find-IsProper p [] o h e = cc
find-IsProper p (q ∷ os) o h e = elim (Bool-cases (p q)) [
  | inl here ↦ let same : q ≡ o = ground arith in rw⁻¹ same h.0
  | inr later ↦ find-IsProper p os o h.1 (ground arith)
]

-- Some output, or none if there is none, and no panic.
output_total :
    (x y : ℤ) (o : OutputRect) (os : List OutputRect)
    → All IsProper (o ∷ os)
    → (r : OutputRect) × IsProper r × (output_for x y (o ∷ os) ≡ some (some r))
output_total x y o os h = elim (Option-cases (find (contains_point x y) (o ∷ os))) [
  | inr (r, found) ↦
      (r, find-IsProper (contains_point x y) (o ∷ os) r h found, ap (or_nearest x y (o ∷ os)) found)
  | inl outside ↦
      let (d, e) = distance_total x y o h.0 in
      let (best, b, f) = nearest_total x y os h.1 in
      (
        (nearer (d, o) best).1,
        nearer-IsProper d o best h.0 b,
        ap (or_nearest x y (o ∷ os)) outside ∙ rw (e, f) refl,
      )
]

clamp_bounds :
    (z extent : ℤ)
    → pos 1 ≤ℤ extent
    → (n : ℕ) × (n ≤ pos_part extent) × (clamp z (pos 0) extent ≡ some (pos n))
clamp_bounds (pos z) (pos w) h = (min z w, ground arith, ground arith)
clamp_bounds (negsuc z) (pos w) h = (0, ground arith, ground arith)
clamp_bounds z (negsuc w) h = absurd (omega arith)

ordered_off :
    (base len : ℤ) → IsSide base len → leb_ℤ (pos 0) (i32 (max_ℤ len (pos 1) -ℤ pos 1)) ≡ true
unfolding i32 ◌-ℤ◌
ordered_off base (pos n) h = ground arith
ordered_off base (negsuc n) h = ground arith

off_total : (p base plen llen : ℤ) → IsSide base plen → (v : ℤ) × (off p base plen llen ≡ some v)
off_total p base plen llen h = let le = ordered_off base plen h in rw le (_, refl)

place_total :
    (p base plen lbase llen origin extent : ℤ)
    → IsSide base plen
    → pos 1 ≤ℤ extent
    → (n : ℕ) × (n ≤ pos_part extent) × (place p base plen lbase llen origin extent ≡ some n)
place_total p base plen lbase llen origin extent h w =
    let (v, e) = off_total p base plen llen h in
    let (n, le, f) = clamp_bounds (i32 (i32 (lbase +ℤ v) -ℤ origin)) extent w in
    (n, le, rw (e, f) refl)

-- The extents of a layout are at least 1, and its outputs are those that it was made of.
pub layout_of_lem :
    (o : OutputRect) (os : List OutputRect)
    → (l : Layout) × (layout_of (o ∷ os) ≡ some l)
      × (l.outputs ≡ o ∷ os)
      × (pos 1 ≤ℤ l.ow)
      × (pos 1 ≤ℤ l.oh)
unfolding layout_of
layout_of_lem o os = (_, refl, refl, ground arith, ground arith)

-- With at least one output, all of the screen's kind, every point lands: nothing panics, an output is found, and the
-- motion that is sent lies within its own extents, which are at least 1.
pub to_logical_total :
    (x y : ℤ) (o : OutputRect) (os : List OutputRect)
    → All IsProper (o ∷ os)
    → (l : Layout) × (t : Target) × (layout_of (o ∷ os) ≡ some l)
      × (to_logical l x y ≡ some (some t))
      × (t.x ≤ t.extent_x)
      × (t.y ≤ t.extent_y)
      × (1 ≤ t.extent_x)
      × (1 ≤ t.extent_y)
unfolding to_logical
to_logical_total x y o os h =
    let (l, made, same, wide, high) = layout_of_lem o os in
    let (r, proper, e) = output_total x y o os h in
    let (gx, xle, ex) = place_total x r.px r.pw r.lx r.lw l.ox l.ow proper.0 wide in
    let (gy, yle, ey) = place_total y r.py r.ph r.ly r.lh l.oy l.oh proper.1 high in
    let t : Target = record {
      x = gx;
      y = gy;
      extent_x = pos_part l.ow;
      extent_y = pos_part l.oh;
    } in
    (l, t, made, rw (same, e, ex, ey) refl, xle, yle, ground arith, ground arith)
