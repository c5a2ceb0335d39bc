-- ===== src/Input/Devices/Bits.antt =====
-- The bitset of the keys that are down: a flip changes its own key, and no other.
use xwlrvnc.Base.{
  ℕ, zero, suc, ◌+◌, ◌-◌, ◌*◌, ◌/◌, ◌%◌, ◌<◌, ◌≡◌, refl, ap, ◌∙◌, inl, inr, not, List, [], ◌∷◌,
  arith, Bool-cases, if◌then◌else◌, ◌==◌, get_or, length, set,
}
use xwlrvnc.Input.Devices.{bit, flip, is_down, is_odd}

parity : (w : ℕ) → ((if is_odd w then w - 1 else w + 1) % 2 == 1) ≡ not (is_odd w)
parity w = ground arith

half : (w : ℕ) → (if is_odd w then w - 1 else w + 1) / 2 ≡ w / 2
half w = ground arith

bit-flip : (w k j : ℕ) → bit (flip w k) j ≡ (if j == k then not (bit w k) else bit w j)
unfolding bit flip
bit-flip w zero zero = parity w
bit-flip w zero (suc j) = ap (λ v. bit v j) (half w) ∙ ground arith
bit-flip w (suc k) zero =
    let low : (flip (w / 2) k * 2 + w % 2) % 2 ≡ w % 2 = omega arith in ground arith
bit-flip w (suc k) (suc j) =
    let high : (flip (w / 2) k * 2 + w % 2) / 2 ≡ flip (w / 2) k = omega arith in
    ap (λ v. bit v j) high ∙ bit-flip (w / 2) k j ∙ ground arith

get_or-set :
    (ws : List ℕ) (i j v : ℕ)
    → i < length ws
    → get_or (set ws i v) j 0 ≡ (if j == i then v else get_or ws j 0)
get_or-set [] i j v h = absurd (omega arith)
get_or-set (w ∷ ws) zero zero v h = ground arith
get_or-set (w ∷ ws) zero (suc j) v h = ground arith
get_or-set (w ∷ ws) (suc i) zero v h = ground arith
get_or-set (w ∷ ws) (suc i) (suc j) v h = ground (arith, get_or-set ws i j v)

pub length-set : (ws : List ℕ) (i v : ℕ) → length (set ws i v) ≡ length ws
length-set [] i v = refl
length-set (w ∷ ws) zero v = refl
length-set (w ∷ ws) (suc i) v = ground (arith, length-set ws i v)

-- Of two keycodes, which word and which bit.
pub is_down-set :
    (ws : List ℕ) (kc j : ℕ)
    → length ws ≡ 4
    → kc < 256
    → is_down (set ws (kc / 64) (flip (get_or ws (kc / 64) 0) (kc % 64))) j
      ≡ (if j == kc then not (is_down ws kc) else is_down ws j)
is_down-set ws kc j four small =
    let w = get_or ws (kc / 64) 0 in
    let word = get_or-set ws (kc / 64) (j / 64) (flip w (kc % 64)) (omega arith) in
    elim (Bool-cases (j / 64 == kc / 64)) [
      | inr other ↦ rw (word, other) (ground arith)
      | inl here ↦
          let e : j / 64 ≡ kc / 64 = ground arith in
          rw (word, here, bit-flip w (kc % 64) (j % 64), e) (ground arith)
    ]
