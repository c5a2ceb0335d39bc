-- ===== src/X11/Randr/Bounds.antt =====
-- The screen's size: it covers the outputs that are shown, and nothing more.
use xwlrvnc.Base.{
  ℕ, ◌≤◌, ◌≡◌, ◌⊎◌, inl, refl, sym, subst, min, max, Bool, true, not, ◌&&◌, ◌||◌, ◌==◌, leb,
  if◌then◌else◌, List, [], ◌∷◌, All, any, arith,
}
use xwlrvnc.Base.Word.{wrapping_add32}
use xwlrvnc.X11.Randr.{Screen, Output, max_screen, bump}
use xwlrvnc.X11.Randr.Layout.{is_shown, right, bottom, extent, clamp_size, recompute_bounds}

extent_grows : (far : Output → ℕ) (os : List Output) (w : ℕ) → w ≤ extent far os w
extent_grows far [] w = omega arith
extent_grows far (o ∷ os) w =
    ground (arith, extent_grows far os (max w (far o)), extent_grows far os w)

-- An output that is not shown, or whose far edge is at most `n`, or beyond the limit.
abbrev pub is_within : (Output → ℕ) → ℕ → Output → Bool
is_within far n o = not (is_shown o) || leb (min (far o) max_screen) n

extent_within :
    (far : Output → ℕ) (os : List Output) (w : ℕ)
    → All (λ o. is_within far (clamp_size (extent far os w)) o ≡ true) os
extent_within far [] w = tt
extent_within far (o ∷ os) w =
    let w' = if is_shown o then max w (far o) else w in
    (ground (arith, extent_grows far os w'), extent_within far os w')

-- Some output that is shown reaches exactly `n`.
abbrev pub is_reached : (Output → ℕ) → ℕ → List Output → Bool
is_reached far n os = any (λ o. is_shown o && far o == n) os

extent_reached :
    (far : Output → ℕ) (os : List Output) (w : ℕ)
    → (extent far os w ≡ w) ⊎ (is_reached far (extent far os w) os ≡ true)
extent_reached far [] w = inl refl
extent_reached far (o ∷ os) w =
    ground (arith, extent_reached far os (if is_shown o then max w (far o) else w))

-- One axis of the screen fits the outputs: it is from 1 to 16384, no output that is shown goes beyond it
-- (except beyond 16384), and unless it is at one of these limits some output that is shown ends with it.
abbrev pub Fits : (Output → ℕ) → ℕ → List Output → Type 0
Fits far n os =
    (1 ≤ n)
    × (n ≤ max_screen)
    × All (λ o. is_within far n o ≡ true) os
    × ((n ≡ 1) ⊎ (n ≡ max_screen) ⊎ (is_reached far n os ≡ true))

extent-Fits : (far : Output → ℕ) (os : List Output) → Fits far (clamp_size (extent far os 0)) os
extent-Fits far os =
    (omega arith, omega arith, extent_within far os 0, ground (arith, extent_reached far os 0))

size-recompute_bounds :
    (s : Screen)
    → ((recompute_bounds s).0.width ≡ clamp_size (extent right s.outputs 0))
      × ((recompute_bounds s).0.height ≡ clamp_size (extent bottom s.outputs 0))
unfolding recompute_bounds bump
size-recompute_bounds s = ground arith

-- After the bounds are recomputed both axes of the screen fit the outputs: each is from 1 to 16384, no output
-- that is shown goes beyond it (except beyond 16384), and unless it is at one of these limits some output
-- that is shown ends with it. Whether the size changed is answered, and the two timestamps advance exactly
-- then; modes, outputs and the next identifier stay.
pub recompute_bounds_lem :
    (s : Screen)
    → let (t, changed) = recompute_bounds s in
      Fits right t.width s.outputs
      × Fits bottom t.height s.outputs
      × (changed ≡ (not (t.width == s.width) || not (t.height == s.height)))
      × (t ≡ record s {
        width = t.width;
        height = t.height;
        timestamp = if changed then wrapping_add32 s.timestamp 1 else s.timestamp;
        config_timestamp =
            if changed then wrapping_add32 s.config_timestamp 1 else s.config_timestamp;
      })
unfolding recompute_bounds bump
recompute_bounds_lem s = (
  subst (λ n. Fits right n s.outputs) (sym (size-recompute_bounds s).0)
      (extent-Fits right s.outputs),
  subst (λ n. Fits bottom n s.outputs) (sym (size-recompute_bounds s).1)
      (extent-Fits bottom s.outputs),
  ground arith,
  ground arith,
)
