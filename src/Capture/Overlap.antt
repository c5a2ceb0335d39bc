-- ===== src/Capture/Overlap.antt =====
-- The overlap of a row with the frame buffer, without the wrap of `i32`.
use xwlrvnc.Base.{
  false, ℕ, suc, ◌+◌, ◌-◌, ◌*◌, ◌^◌, ◌≤◌, ◌<◌, min, ◌≡◌, sym, ◌∙◌, ◌⊎◌, inl, inr, Bool, true, ◌&&◌,
  arith, Bool-cases, if◌then◌else◌, ltb,
}
use xwlrvnc.Base.Int.{
  i32, i32_id, leb_ℤ, ltb_ℤ, max_ℤ, min_ℤ, neg_part, negsuc, pos, pos_part, sub_ℕ, ℤ, ◌+ℤ◌, ◌-ℤ◌,
}
use xwlrvnc.Capture.{add_i32, as_i32, copied, copied_of, overlap, within}

pub i32_pos : (n : ℕ) → n < 2 ^ 31 → i32 (pos n) ≡ pos n
i32_pos n h = i32_id (pos n) (omega arith) (omega arith)

sum_pos : (a b : ℕ) → pos a +ℤ pos b ≡ pos (a + b)
unfolding ◌+ℤ◌
sum_pos a b = ground arith

diff_pos : (a b : ℕ) → b ≤ a → pos a -ℤ pos b ≡ pos (a - b)
unfolding ◌-ℤ◌
diff_pos a b h = ground arith

sum_neg : (a b : ℕ) → negsuc a +ℤ pos b ≡ sub_ℕ b (suc a)
unfolding ◌+ℤ◌
sum_neg a b = ground arith

neg_diff : (a : ℕ) → pos 0 -ℤ negsuc a ≡ pos (suc a)
unfolding ◌-ℤ◌
neg_diff a = ground arith

from_neg : (p a : ℕ) → pos p -ℤ negsuc a ≡ pos (p + suc a)
unfolding ◌-ℤ◌
from_neg p a = ground arith

pub i32_sub : (p q : ℕ) → p < 2 ^ 31 → q < 2 ^ 31 → i32 (sub_ℕ p q) ≡ sub_ℕ p q
i32_sub p q hp hq = i32_id (sub_ℕ p q) (ground arith) (ground arith)

module _ (a w f : ℕ) (hw : w < 2 ^ 30) (hf : f < 2 ^ 30) (ha : a < 2 ^ 30) where
  end_pos : add_i32 (pos a) (as_i32 w) ≡ pos (a + w)
  end_pos = rw (i32_pos w (omega arith), sum_pos a w) (i32_pos (a + w) (omega arith))

  end_neg : add_i32 (negsuc a) (as_i32 w) ≡ sub_ℕ w (suc a)
  end_neg =
      rw (i32_pos w (omega arith), sum_neg a w) (i32_sub w (suc a) (omega arith) (omega arith))

  overlap_pos : overlap (pos a) w f ≡ (pos a, pos (min (a + w) f))
  unfolding overlap
  overlap_pos = rw (end_pos, i32_pos f (omega arith)) (ground arith)

  overlap_neg : overlap (negsuc a) w f ≡ (pos 0, min_ℤ (sub_ℕ w (suc a)) (pos f))
  unfolding overlap
  overlap_neg = rw (end_neg, i32_pos f (omega arith)) (ground arith)

  copied_pos :
      copied (pos a) w f ≡ (if ltb a (min (a + w) f) then ((min (a + w) f - a) * 4, 0) else (0, 0))
  unfolding copied copied_of
  copied_pos = rw overlap_pos (elim (Bool-cases (ltb a (min (a + w) f))) [
    | inl some' ↦
        let n = min (a + w) f in
        let d = diff_pos n a (ground arith) in
        let z = diff_pos a a (omega arith) in
        let e = i32_pos (n - a) (omega arith) in
        let e0 = i32_pos (a - a) (omega arith) in ground arith
    | inr none' ↦ ground arith
  ])

  copied_neg :
      copied (negsuc a) w f
      ≡ (if ltb (suc a) w && ltb 0 f then (min (w - suc a) f * 4, suc a * 4) else (0, 0))
  unfolding copied copied_of
  copied_neg = rw overlap_neg (elim (Bool-cases (ltb (suc a) w && ltb 0 f)) [
    | inl some' ↦
        let n = min (w - suc a) f in
        let e1 : min_ℤ (sub_ℕ w (suc a)) (pos f) ≡ pos n = ground arith in
        let d = diff_pos n 0 (omega arith) in
        let z = neg_diff a in
        let e = i32_pos (n - 0) (omega arith) in
        let e0 = i32_pos (suc a) (omega arith) in rw e1 (ground arith)
    | inr none' ↦ ground arith
  ])

-- The place of the frame buffer that is `c` places from `x` on, if it is one of `f`.
abbrev pub is_place : ℤ → ℕ → ℕ → Bool
is_place x c f = leb_ℤ (pos 0) (x +ℤ pos c) && ltb_ℤ (x +ℤ pos c) (pos f)

abbrev pub place : ℤ → ℕ → ℕ
place x c = pos_part (x +ℤ pos c)

-- A coordinate that 31 bits hold, with room for a sum.
abbrev pub IsSmall : ℤ → Type 0
IsSmall z = (pos_part z < 2 ^ 30) × (neg_part z < 2 ^ 30)

pub record IsRowPart (x : ℤ) (c k w f : ℕ) : Type 0 where
  pub inside : within (copied x w f).1 (copied x w f).0 (c * 4 + k) ≡ is_place x c f
  pub source :
      is_place x c f ≡ true
      → pos_part (max_ℤ x (pos 0)) * 4 + (c * 4 + k - (copied x w f).1) ≡ place x c * 4 + k
  pub fits : (copied x w f).1 + (copied x w f).0 ≤ w * 4
  pub ends : ((copied x w f).0 ≡ 0) ⊎ (pos_part (max_ℤ x (pos 0)) * 4 + (copied x w f).0 ≤ f * 4)

pub copied-IsRowPart :
    (x : ℤ) (c k w f : ℕ)
    → c < w
    → k < 4
    → w < 2 ^ 30
    → f < 2 ^ 30
    → IsSmall x
    → IsRowPart x c k w f
copied-IsRowPart (pos a) c k w f hc hk hw hf hx =
    let e = copied_pos a w f hw hf hx.0 in
    let s = sum_pos a c in
    record {
      inside = rw (e, s) (ground arith);
      source = λ h. rw (e, s) (ground arith);
      fits = rw e (ground arith);
      ends = rw e (ground arith);
    }
copied-IsRowPart (negsuc a) c k w f hc hk hw hf hx =
    let e = copied_neg a w f hw hf (omega (arith, hx.1)) in
    let s = sum_neg a c in
    record {
      inside = rw (e, s) (ground arith);
      source = λ h. rw (e, s) (ground arith);
      fits = rw e (ground arith);
      ends = rw e (ground arith);
    }

-- The row that is `r` rows from `y` on.
pub add_i32_small : (y : ℤ) (r : ℕ) → IsSmall y → r < 2 ^ 30 → add_i32 y (as_i32 r) ≡ y +ℤ pos r
add_i32_small (pos a) r h hr = end_pos a r 0 hr (omega arith) h.0 ∙ sym (sum_pos a r)
add_i32_small (negsuc a) r h hr =
    end_neg a r 0 hr (omega arith) (omega (arith, h.1)) ∙ sym (sum_neg a r)

-- The column or row of a source at `o` that lands on the place `p`, if it has one.
abbrev pub is_from : ℤ → ℕ → ℕ → Bool
is_from o p n = leb_ℤ o (pos p) && ltb_ℤ (pos p) (o +ℤ pos n)

abbrev pub from : ℤ → ℕ → ℕ
from o p = pos_part (pos p -ℤ o)

-- What the overlap of a source of `w` columns at `o` with `f` places is to the place `p`.
pub record IsMeeting (o : ℤ) (w f p : ℕ) (dx0 dx1 : ℤ) : Type 0 where
  pub empty : leb_ℤ dx1 dx0 ≡ true → is_from o p w ≡ false
  pub inside :
      leb_ℤ dx1 dx0 ≡ false → within (pos_part dx0) (pos_part (i32 (dx1 -ℤ dx0))) p ≡ is_from o p w
  pub shift :
      is_from o p w ≡ true → pos_part (i32 (dx0 -ℤ o)) * 4 + (p - pos_part dx0) * 4 ≡ from o p * 4
  pub left : leb_ℤ dx1 dx0 ≡ false → pos_part (i32 (dx0 -ℤ o)) + pos_part (i32 (dx1 -ℤ dx0)) ≤ w
  pub right : leb_ℤ dx1 dx0 ≡ false → pos_part dx0 + pos_part (i32 (dx1 -ℤ dx0)) ≤ f

module _ (a w f p : ℕ) (hw : w < 2 ^ 30) (hf : f < 2 ^ 30) (ha : a < 2 ^ 30) (hp : p < f) where
  overlap_pos-IsMeeting : IsMeeting (pos a) w f p (pos a) (pos (min (a + w) f))
  overlap_pos-IsMeeting =
      let n = min (a + w) f in
      elim (Bool-cases (ltb a n)) [
        | inl more ↦
            let d = diff_pos n a (ground arith) in
            let e = i32_pos (n - a) (omega arith) in
            let z = diff_pos a a (omega arith) in
            let e0 = i32_pos (a - a) (omega arith) in
            let s = sum_pos a w in
            record {
              empty = λ h. ground arith;
              inside = λ h. rw (d, e, s) (ground arith);
              shift = λ h. let q = diff_pos p a (ground arith) in rw (z, e0, q) (ground arith);
              left = λ h. rw (d, e, z, e0) (ground arith);
              right = λ h. rw (d, e) (ground arith);
            }
        | inr less ↦
            let s = sum_pos a w in
            record {
              empty = λ h. rw s (ground arith);
              inside = λ h. ground arith;
              shift =
                  λ h. let h' : is_from (pos a) p w ≡ false = rw s (ground arith) in ground arith;
              left = λ h. ground arith;
              right = λ h. ground arith;
            }
      ]

  overlap_neg-IsMeeting : IsMeeting (negsuc a) w f p (pos 0) (min_ℤ (sub_ℕ w (suc a)) (pos f))
  overlap_neg-IsMeeting =
      let n = min (w - suc a) f in
      let s = sum_neg a w in
      elim (Bool-cases (ltb (suc a) w)) [
        | inl more ↦
            let e1 : min_ℤ (sub_ℕ w (suc a)) (pos f) ≡ pos n = ground arith in
            let d = diff_pos n 0 (omega arith) in
            let e = i32_pos (n - 0) (omega arith) in
            let z = neg_diff a in
            let e0 = i32_pos (suc a) (omega arith) in
            rw e1 (record {
              empty = λ h. rw s (ground arith);
              inside = λ h. rw (d, e, s) (ground arith);
              shift = λ h. rw (z, e0, from_neg p a) (ground arith);
              left = λ h. rw (d, e, z, e0) (ground arith);
              right = λ h. rw (d, e) (ground arith);
            })
        | inr less ↦ record {
          empty = λ h. rw s (ground arith);
          inside = λ h. ground arith;
          shift =
              λ h. let h' : is_from (negsuc a) p w ≡ false = rw s (ground arith) in ground arith;
          left = λ h. ground arith;
          right = λ h. ground arith;
        }
      ]

pub overlap-IsMeeting :
    (o : ℤ) (w f p : ℕ)
    → w < 2 ^ 30
    → f < 2 ^ 30
    → IsSmall o
    → p < f
    → IsMeeting o w f p (overlap o w f).0 (overlap o w f).1
overlap-IsMeeting (pos a) w f p hw hf h hp =
    rw (overlap_pos a w f hw hf h.0) (overlap_pos-IsMeeting a w f p hw hf h.0 hp)
overlap-IsMeeting (negsuc a) w f p hw hf h hp =
    let ha : a < 2 ^ 30 = omega (arith, h.1) in
    rw (overlap_neg a w f hw hf ha) (overlap_neg-IsMeeting a w f p hw hf ha hp)
