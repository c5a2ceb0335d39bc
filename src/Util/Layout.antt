-- ===== src/Util/Layout.antt =====
-- util/layout.rs: points of the X screen in the compositor's logical space. Sums of `i32` wrap, as in a release
-- build; the product of `off` is 64 bits wide and holds that of two `i32`. `none` of the outer `Option` is a panic of
-- `clamp`, whose lower bound must not be above the upper one.
pub mod Bounds
use xwlrvnc.Base.{
  ℕ, suc, ◌+◌, ◌*◌, ◌/◌, Bool, ◌&&◌, Option, none, some, List, [], ◌∷◌, if◌then◌else◌, ◌>>=◌, find,
}
use xwlrvnc.Base.Int.{
  i32, leb_ℤ, ltb_ℤ, max_ℤ, min_ℤ, neg_part, negsuc, pos, pos_part, ℤ, ◌+ℤ◌, ◌-ℤ◌,
}

pub record OutputRect : Type 0 where
  pub px : ℤ
  pub py : ℤ
  pub pw : ℤ
  pub ph : ℤ
  pub lx : ℤ
  pub ly : ℤ
  pub lw : ℤ
  pub lh : ℤ

pub record Layout : Type 0 where
  pub outputs : List OutputRect
  pub ox : ℤ
  pub oy : ℤ
  pub ow : ℤ
  pub oh : ℤ

-- What an absolute motion is given.
pub record Target : Type 0 where
  pub x : ℕ
  pub y : ℕ
  pub extent_x : ℕ
  pub extent_y : ℕ

-- `iter().map(f).min()` and `max()`, of the first output and the others.
abbrev pub least : (OutputRect → ℤ) → OutputRect → List OutputRect → ℤ
least f o [] = f o
least f o (p ∷ ps) = min_ℤ (f o) (least f p ps)

abbrev pub greatest : (OutputRect → ℤ) → OutputRect → List OutputRect → ℤ
greatest f o [] = f o
greatest f o (p ∷ ps) = max_ℤ (f o) (greatest f p ps)

-- `Layout::new`.
unfoldable pub layout_of : List OutputRect → Option Layout
layout_of [] = none
layout_of (o ∷ os) =
    let ox = least (λ r. r.lx) o os in
    let oy = least (λ r. r.ly) o os in
    let mx = greatest (λ r. i32 (r.lx +ℤ r.lw)) o os in
    let my = greatest (λ r. i32 (r.ly +ℤ r.lh)) o os in
    some (record {
      outputs = o ∷ os;
      ox = ox;
      oy = oy;
      ow = max_ℤ (i32 (mx -ℤ ox)) (pos 1);
      oh = max_ℤ (i32 (my -ℤ oy)) (pos 1);
    })

-- `Ord::clamp`.
abbrev pub clamp : ℤ → ℤ → ℤ → Option ℤ
clamp z lo hi = if leb_ℤ lo hi then some (min_ℤ (max_ℤ z lo) hi) else none

abbrev pub is_within : ℤ → ℤ → ℤ → Bool
is_within p base len = leb_ℤ base p && ltb_ℤ p (i32 (base +ℤ len))

abbrev pub contains_point : ℤ → ℤ → OutputRect → Bool
contains_point x y o = is_within x o.px o.pw && is_within y o.py o.ph

abbrev pub size_of : ℤ → ℕ
size_of z = pos_part z + neg_part z

-- The distance of one axis, squared.
abbrev pub axis_distance : ℤ → ℤ → ℤ → Option ℤ
axis_distance p base len = do
  near ← clamp p base (i32 (i32 (base +ℤ len) -ℤ pos 1))
  let d = size_of (i32 (p -ℤ near))
  some (i32 (pos (d * d)))

abbrev pub distance : ℤ → ℤ → OutputRect → Option ℤ
distance x y o = do
  dx ← axis_distance x o.px o.pw
  dy ← axis_distance y o.py o.ph
  some (i32 (dx +ℤ dy))

-- `min_by_key`: the first of the least.
abbrev pub nearer : ℤ × OutputRect → Option (ℤ × OutputRect) → ℤ × OutputRect
nearer (d, o) none = (d, o)
nearer (d, o) (some (e, p)) = if leb_ℤ d e then (d, o) else (e, p)

abbrev pub nearest : ℤ → ℤ → List OutputRect → Option (Option (ℤ × OutputRect))
nearest x y [] = some none
nearest x y (o ∷ os) = do
  d ← distance x y o
  best ← nearest x y os
  some (some (nearer (d, o) best))

abbrev pub rect_of : Option (ℤ × OutputRect) → Option OutputRect
rect_of none = none
rect_of (some (d, o)) = some o

-- `inside.or_else(..)`.
abbrev pub or_nearest : ℤ → ℤ → List OutputRect → Option OutputRect → Option (Option OutputRect)
or_nearest x y os (some o) = some (some o)
or_nearest x y os none = do best ← nearest x y os; some (rect_of best)

abbrev pub output_for : ℤ → ℤ → List OutputRect → Option (Option OutputRect)
output_for x y os = or_nearest x y os (find (contains_point x y) os)

-- Division truncates, which the sign does not change.
abbrev pub scaled : ℕ → ℤ → ℕ → ℤ
scaled n (pos l) plen = pos (n * l / plen)
scaled n (negsuc l) plen = pos 0 -ℤ pos (n * suc l / plen)

abbrev pub off : ℤ → ℤ → ℤ → ℤ → Option ℤ
off p base plen llen = do
  let len = max_ℤ plen (pos 1)
  local ← clamp (i32 (p -ℤ base)) (pos 0) (i32 (len -ℤ pos 1))
  some (i32 (scaled (pos_part local) llen (pos_part len)))

-- One axis of the point, from the origin of the logical space.
abbrev pub place : ℤ → ℤ → ℤ → ℤ → ℤ → ℤ → ℤ → Option ℕ
place p base plen lbase llen origin extent = do
  local ← off p base plen llen
  at ← clamp (i32 (i32 (lbase +ℤ local) -ℤ origin)) (pos 0) extent
  some (pos_part at)

abbrev pub place_in : ℤ → ℤ → Layout → Option OutputRect → Option (Option Target)
place_in x y l none = some none
place_in x y l (some o) = do
  gx ← place x o.px o.pw o.lx o.lw l.ox l.ow
  gy ← place y o.py o.ph o.ly o.lh l.oy l.oh
  some (some (record { x = gx; y = gy; extent_x = pos_part l.ow; extent_y = pos_part l.oh }))

unfoldable pub to_logical : Layout → ℤ → ℤ → Option (Option Target)
to_logical l x y = do o ← output_for x y l.outputs; place_in x y l o
