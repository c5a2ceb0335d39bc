-- ===== src/X11/Randr/Pack.antt =====
-- bridge/x11/randr.rs: `pack_axis`, which places the outputs of one axis by their physical sizes. The
-- map of edges is a list of pairs in no order, for its keys are distinct. Sums wrap at 32 bits, as they
-- do in a release build.
use xwlrvnc.Base.{
  ℕ, zero, suc, if◌then◌else◌, List, [], ◌∷◌, map, Option, none, some, set, is_some, length, ◌≡◌,
  refl, arith,
}
use xwlrvnc.Base.Int.{ℤ, pos, ◌+ℤ◌, ◌-ℤ◌, leb_ℤ, ltb_ℤ, eqb_ℤ, max_ℤ, i32}

-- `(logical_start, logical_len, physical_len)`.
pub record Item : Type 0 where
  pub start : ℤ
  pub len : ℤ
  pub phys : ℤ

abbrev pub edge : ℤ → List (ℤ × ℤ) → Option ℤ
edge key [] = none
edge key ((k, v) ∷ m) = if eqb_ℤ k key then some v else edge key m

abbrev pub put_edge : ℤ → ℤ → List (ℤ × ℤ) → List (ℤ × ℤ)
put_edge key value [] = (key, value) ∷ []
put_edge key value ((k, v) ∷ m) =
    if eqb_ℤ k key then (key, value) ∷ m else (k, v) ∷ put_edge key value m

abbrev pub later_key : Option (ℤ × ℤ) → ℤ × ℤ → Option (ℤ × ℤ)
later_key none e = some e
later_key (some (k, v)) e = if ltb_ℤ k e.0 then some e else some (k, v)

-- `bound.range(..=key).next_back()`.
abbrev pub nearest : ℤ → List (ℤ × ℤ) → Option (ℤ × ℤ)
nearest key [] = none
nearest key (e ∷ m) = if leb_ℤ e.0 key then later_key (nearest key m) e else nearest key m

abbrev pub extended : ℤ → Option (ℤ × ℤ) → ℤ
extended start none = pos 0
extended start (some (b, pb)) = i32 (pb +ℤ i32 (start -ℤ b))

abbrev pub start_at : ℤ → List (ℤ × ℤ) → ℤ
start_at start bound = elim (edge start bound) [
  | some p ↦ p
  | none ↦ extended start (nearest start bound)
]

-- `bound.entry(key).or_insert(value)`.
abbrev pub or_insert : ℤ → ℤ → List (ℤ × ℤ) → List (ℤ × ℤ)
or_insert key value m = if is_some (edge key m) then m else put_edge key value m

-- `bound.entry(key).and_modify(|v| *v = (*v).max(value)).or_insert(value)`.
abbrev pub raise : ℤ → ℤ → List (ℤ × ℤ) → List (ℤ × ℤ)
raise key value m = elim (edge key m) [
  | some v ↦ put_edge key (max_ℤ v value) m
  | none ↦ put_edge key value m
]

-- One output: its place, and the edges that it makes known.
abbrev pub edges_after : Item → ℤ → List (ℤ × ℤ) → List (ℤ × ℤ)
edges_after it px bound =
    raise (i32 (it.start +ℤ it.len)) (i32 (px +ℤ it.phys)) (or_insert it.start px bound)

abbrev pub pack_from : List (ℕ × Item) → List (ℤ × ℤ) → List ℤ → List ℤ
pack_from [] bound out = out
pack_from ((i, it) ∷ order) bound out =
    let px = start_at it.start bound in pack_from order (edges_after it px bound) (set out i px)

-- A stable sort by the start.
abbrev pub insert_item : ℕ × Item → List (ℕ × Item) → List (ℕ × Item)
insert_item e [] = e ∷ []
insert_item e (f ∷ fs) = if leb_ℤ e.1.start f.1.start then e ∷ f ∷ fs else f ∷ insert_item e fs

abbrev pub sort_by_start : List (ℕ × Item) → List (ℕ × Item)
sort_by_start [] = []
sort_by_start (e ∷ es) = insert_item e (sort_by_start es)

abbrev pub enumerate : ℕ → List Item → List (ℕ × Item)
enumerate i [] = []
enumerate i (it ∷ items) = (i, it) ∷ enumerate (suc i) items

-- The edge of the least start is at 0; it stands first in the order.
abbrev pub origin : List (ℕ × Item) → List (ℤ × ℤ)
origin [] = []
origin ((i, it) ∷ order) = (it.start, pos 0) ∷ []

unfoldable pub pack_axis : List Item → List ℤ
pack_axis items =
    let order = sort_by_start (enumerate 0 items) in
    pack_from order (origin order) (map (λ it. pos 0) items)

length-set : (out : List ℤ) (i : ℕ) (v : ℤ) → length (set out i v) ≡ length out
length-set [] i v = refl
length-set (x ∷ out) zero v = refl
length-set (x ∷ out) (suc i) v = omega (arith, length-set out i v)

length-pack_from :
    (order : List (ℕ × Item)) (bound : List (ℤ × ℤ)) (out : List ℤ)
    → length (pack_from order bound out) ≡ length out
length-pack_from [] bound out = refl
length-pack_from ((i, it) ∷ order) bound out =
    let px = start_at it.start bound in
    omega
      (arith, length-pack_from order (edges_after it px bound) (set out i px), length-set out i px)

length-zeros : (items : List Item) → length (map (λ it. pos 0) items) ≡ length items
length-zeros [] = refl
length-zeros (it ∷ items) = omega (arith, length-zeros items)

-- Each output gets a place.
pub length-pack_axis : (items : List Item) → length (pack_axis items) ≡ length items
unfolding pack_axis
length-pack_axis items =
    let order = sort_by_start (enumerate 0 items) in
    omega
      (arith, length-pack_from order (origin order) (map (λ it. pos 0) items), length-zeros items)
