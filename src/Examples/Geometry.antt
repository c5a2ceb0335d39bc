-- ===== src/Examples/Geometry.antt =====
-- Concrete pixels and rectangles.
use xwlrvnc.Base.{ℕ, ◌≤◌, ◌<◌, ◌≡◌, some, List, [], ◌∷◌, arith}
use xwlrvnc.Util.Transform.{point, rotate90, size}
use xwlrvnc.Util.Transform.Onto.{inverse, point_onto}
use xwlrvnc.Util.Boxes.{Rectangle}
use xwlrvnc.Util.Layout.{Layout, OutputRect, Target, layout_of, to_logical}
use xwlrvnc.Util.Layout.Bounds.{to_logical_total}
use xwlrvnc.Base.Int.{negsuc, pos}

abbrev boxes : List Rectangle
boxes =
    record { x = pos 10; y = pos 20; width = 30; height = 40 }
    ∷ record { x = pos 0; y = pos 0; width = 0; height = 5 }
    ∷ record { x = pos 5; y = pos 50; width = 10; height = 20 }
    ∷ []

-- Scaled by two.
abbrev left : OutputRect
left = record {
  px = pos 0;
  py = pos 0;
  pw = pos 1280;
  ph = pos 800;
  lx = pos 0;
  ly = pos 0;
  lw = pos 640;
  lh = pos 400;
}

abbrev right_of : OutputRect
right_of = record left { px = pos 1280; pw = pos 800; lx = pos 640; lw = pos 800 }

point_onto_example :
    let (tw, th) = size rotate90 4 2 in
    (a : ℕ) × (b : ℕ) × (point rotate90 (pos 3) (pos 1) (pos 4) (pos 2) ≡ (pos a, pos b))
    × (a < tw)
    × (b < th)
    × (point (inverse rotate90) (pos a) (pos b) (pos tw) (pos th) ≡ (pos 3, pos 1))
    × (size (inverse rotate90) tw th ≡ (4, 2))
point_onto_example =
    point_onto rotate90 3 1 4 2 (omega arith) (omega arith) (omega arith) (omega arith)

to_logical_total_example :
    (l : Layout) × (t : Target) × (layout_of (left ∷ (right_of ∷ [])) ≡ some l)
    × (to_logical l (pos 1500) (negsuc 0) ≡ some (some t))
    × (t.x ≤ t.extent_x)
    × (t.y ≤ t.extent_y)
    × (1 ≤ t.extent_x)
    × (1 ≤ t.extent_y)
to_logical_total_example = to_logical_total (pos 1500) (negsuc 0) left (right_of ∷ []) (
  (
    (omega arith, omega arith, omega arith, omega arith),
    (omega arith, omega arith, omega arith, omega arith),
  ),
  (
    (
      (omega arith, omega arith, omega arith, omega arith),
      (omega arith, omega arith, omega arith, omega arith),
    ),
    tt,
  ),
)
