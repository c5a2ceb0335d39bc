-- ===== src/Util/Boxes.antt =====
-- util/geometry.rs: `bbox`, the bounding box of rectangles. A `Rectangle` of x11rb has 16-bit parts: a
-- place that is signed and a size that is not; the sums in between are 32 bits wide and cannot overflow.
use xwlrvnc.Base.{
  ℕ, ◌+◌, ◌-◌, ◌%◌, ◌^◌, ◌≤◌, ◌≡◌, ◌⊎◌, inl, inr, refl, ap, ◌∙◌, min, max, Bool, true, ◌&&◌, ltb,
  leb, if◌then◌else◌, List, [], ◌∷◌, Option, none, some, retain, All, All-imp, All-retain, arith,
}
use xwlrvnc.Base.Int.{ℤ, pos, negsuc, pos_part, neg_part, ◌+ℤ◌, ◌-ℤ◌, min_ℤ, max_ℤ}

pub record Rectangle : Type 0 where
  pub x : ℤ
  pub y : ℤ
  pub width : ℕ
  pub height : ℕ

-- `as u16` and `as i16`.
abbrev pub as_u16 : ℤ → ℕ
as_u16 z = (pos_part z + (2 ^ 16 - neg_part z % 2 ^ 16)) % 2 ^ 16

abbrev pub as_i16 : ℤ → ℤ
as_i16 z = let w = as_u16 z in if ltb w (2 ^ 15) then pos w else negsuc (2 ^ 16 - w - 1)

pub record Corners : Type 0 where
  pub x1 : ℤ
  pub y1 : ℤ
  pub x2 : ℤ
  pub y2 : ℤ

abbrev pub corners_of : Rectangle → Corners
corners_of r = record { x1 = r.x; y1 = r.y; x2 = r.x +ℤ pos r.width; y2 = r.y +ℤ pos r.height }

abbrev pub grow : Corners → Rectangle → Corners
grow c r = record {
  x1 = min_ℤ c.x1 r.x;
  y1 = min_ℤ c.y1 r.y;
  x2 = max_ℤ c.x2 (r.x +ℤ pos r.width);
  y2 = max_ℤ c.y2 (r.y +ℤ pos r.height);
}

abbrev pub grow_all : Corners → List Rectangle → Corners
grow_all c [] = c
grow_all c (r ∷ rs) = grow_all (grow c r) rs

abbrev pub box_of : Corners → Rectangle
box_of c = record {
  x = as_i16 c.x1;
  y = as_i16 c.y1;
  width = as_u16 (c.x2 -ℤ c.x1);
  height = as_u16 (c.y2 -ℤ c.y1);
}

-- `r.width > 0 && r.height > 0`.
abbrev pub has_area : Rectangle → Bool
has_area r = ltb 0 r.width && ltb 0 r.height

abbrev pub bound : List Rectangle → Option Rectangle
bound [] = none
bound (r ∷ rs) = some (box_of (grow_all (corners_of r) rs))

unfoldable pub bbox : List Rectangle → Option Rectangle
bbox rects = bound (retain has_area rects)

-- A rectangle of the screen: no part of it is at a negative place, nor beyond 32767.
abbrev pub IsOnScreen : Rectangle → Type 0
IsOnScreen r =
    (neg_part r.x ≡ 0)
    × (neg_part r.y ≡ 0)
    × (pos_part r.x + r.width ≤ 32767)
    × (pos_part r.y + r.height ≤ 32767)

-- Whether the second rectangle of the screen lies within the first.
abbrev pub covers : Rectangle → Rectangle → Bool
covers b r =
    leb (pos_part b.x) (pos_part r.x)
    && leb (pos_part r.x + r.width) (pos_part b.x + b.width)
    && leb (pos_part b.y) (pos_part r.y)
    && leb (pos_part r.y + r.height) (pos_part b.y + b.height)

abbrev pub corners : ℕ → ℕ → ℕ → ℕ → Corners
corners a b d e = record { x1 = pos a; y1 = pos b; x2 = pos d; y2 = pos e }

-- A place that is not negative, and the far side of what begins there.
place_of :
    (z : ℤ) (w : ℕ) → neg_part z ≡ 0 → (z ≡ pos (pos_part z)) × (z +ℤ pos w ≡ pos (pos_part z + w))
unfolding ◌+ℤ◌
place_of (pos n) w h = (refl, ground arith)
place_of (negsuc n) w h = ground arith

grow_lem :
    (a b d e : ℕ) (r : Rectangle)
    → IsOnScreen r
    → grow (corners a b d e) r
      ≡ corners
          (min a (pos_part r.x))
          (min b (pos_part r.y))
          (max d (pos_part r.x + r.width))
          (max e (pos_part r.y + r.height))
grow_lem a b d e r on = ground (arith, place_of r.x r.width on.0, place_of r.y r.height on.1)

-- Whether these corners enclose a rectangle of the screen.
abbrev pub encloses : ℕ → ℕ → ℕ → ℕ → Rectangle → Bool
encloses a b d e r =
    leb a (pos_part r.x)
    && leb b (pos_part r.y)
    && leb (pos_part r.x + r.width) d
    && leb (pos_part r.y + r.height) e

grow_all_lem :
    (a b d e : ℕ) (rs : List Rectangle)
    → d ≤ 32767
    → e ≤ 32767
    → All IsOnScreen rs
    → (a' b' d' e' : ℕ) × (grow_all (corners a b d e) rs ≡ corners a' b' d' e')
      × (a' ≤ a)
      × (b' ≤ b)
      × (d ≤ d')
      × (e ≤ e')
      × (d' ≤ 32767)
      × (e' ≤ 32767)
      × All (λ r. encloses a' b' d' e' r ≡ true) rs
grow_all_lem a b d e [] hd he on =
    (a, b, d, e, refl, omega arith, omega arith, omega arith, omega arith, hd, he, tt)
grow_all_lem a b d e (r ∷ rs) hd he on =
    let (a', b', d', e', p, la, lb, ld, le, hd', he', all) =
      grow_all_lem (min a (pos_part r.x)) (min b (pos_part r.y)) (max d (pos_part r.x + r.width))
        (max e (pos_part r.y + r.height)) rs (omega arith) (omega arith) on.1 in
    (
      a',
      b',
      d',
      e',
      ap (λ c. grow_all c rs) (grow_lem a b d e r on.0) ∙ p,
      omega arith,
      omega arith,
      omega arith,
      omega arith,
      hd',
      he',
      (ground arith, all),
    )

box_of-corners :
    (a b d e : ℕ)
    → a ≤ d
    → b ≤ e
    → d ≤ 32767
    → e ≤ 32767
    → box_of (corners a b d e) ≡ record { x = pos a; y = pos b; width = d - a; height = e - b }
unfolding ◌-ℤ◌
box_of-corners a b d e ha hb hd he = ground arith

corners_of_lem :
    (r : Rectangle)
    → IsOnScreen r
    → corners_of r
      ≡ corners (pos_part r.x) (pos_part r.y) (pos_part r.x + r.width) (pos_part r.y + r.height)
corners_of_lem r on = ground (arith, place_of r.x r.width on.0, place_of r.y r.height on.1)

-- The bounding box of rectangles, none of them at a negative place or beyond 32767, is none exactly if none of them has an area; otherwise it covers
-- each one that has.
pub bbox-covers :
    (rects : List Rectangle)
    → All IsOnScreen rects
    → ((bbox rects ≡ none) × (retain has_area rects ≡ []))
      ⊎ ((b : Rectangle) × (bbox rects ≡ some b)
          × All (λ r. covers b r ≡ true) (retain has_area rects))
unfolding bbox
bbox-covers rects on = bounded (retain has_area rects) (All-retain IsOnScreen has_area rects on)
  where
    bounded :
        (rs : List Rectangle)
        → All IsOnScreen rs
        → ((bound rs ≡ none) × (rs ≡ []))
          ⊎ ((b : Rectangle) × (bound rs ≡ some b) × All (λ r. covers b r ≡ true) rs)
    bounded [] h = inl (refl, refl)
    bounded (r ∷ rs) h =
        let (a, b, d, e, p, la, lb, ld, le, hd, he, all) =
          grow_all_lem (pos_part r.x) (pos_part r.y) (pos_part r.x + r.width)
            (pos_part r.y + r.height) rs (omega arith) (omega arith) h.1 in
        inr (
          record { x = pos a; y = pos b; width = d - a; height = e - b },
          ap (λ c. some (box_of c)) (ap (λ c. grow_all c rs) (corners_of_lem r h.0) ∙ p)
              ∙ ap some (box_of-corners a b d e (omega arith) (omega arith) hd he),
          (
            ground arith,
            All-imp (λ q. encloses a b d e q ≡ true)
                (λ q.
                  covers (record { x = pos a; y = pos b; width = d - a; height = e - b }) q ≡ true)
                (λ q h. ground arith) rs all,
          ),
        )
