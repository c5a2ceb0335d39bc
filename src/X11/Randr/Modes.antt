-- ===== src/X11/Randr/Modes.antt =====
-- The modes that clients create, list, unlist and destroy, and the CRTCs that they configure.
use xwlrvnc.Base.{
  ℕ, ◌≡◌, ◌⊎◌, inl, inr, refl, true, false, not, ◌&&◌, ◌==◌, is_some, if◌then◌else◌, List, [], ◌∷◌,
  map, find, update_first, contains, retain, arith, Bool-cases, Option, none, some, Option-cases,
}
use xwlrvnc.Base.Word.{wrapping_add32}
use xwlrvnc.Base.Int.{ℤ}
use xwlrvnc.X11.Randr.{
  Screen, Output, Mode, bump, destroy_mode, mode_size, size_in, unlist_mode, output_by_crtc, lists,
}
use xwlrvnc.X11.Randr.Crtc.{set_crtc, configured, of_crtc, sized}

contains-retain :
    (ids : List ℕ) (mode id : ℕ)
    → contains (retain (λ m. not (m == mode)) ids) id ≡ (contains ids id && not (id == mode))
contains-retain [] mode id = refl
contains-retain (x ∷ ids) mode id = ground (arith, contains-retain ids mode id)

size_in-retain :
    (ms : List Mode) (mode id : ℕ)
    → size_in (retain (λ m. not (m.info.id == mode)) ms) id
      ≡ (if id == mode then none else size_in ms id)
size_in-retain [] mode id = ground arith
size_in-retain (m ∷ ms) mode id = ground (arith, size_in-retain ms mode id)

listed_of :
    (os : List Output) (mode id : ℕ)
    → map (lists id) (map (unlist_mode mode) os) ≡ map (λ o. lists id o && not (id == mode)) os
listed_of [] mode id = refl
listed_of (o ∷ os) mode id =
    ground (arith, listed_of os mode id, contains-retain o.mode_ids mode id)

-- A destroyed mode has no size any more and is listed by no output; every other mode keeps its size and
-- is listed by the same outputs.
pub destroy_mode_lem :
    (mode id : ℕ) (s : Screen)
    → let t = destroy_mode mode s in
      (mode_size t id ≡ (if id == mode then none else mode_size s id))
      × (map (lists id) t.outputs ≡ map (λ o. lists id o && not (id == mode)) s.outputs)
unfolding destroy_mode
destroy_mode_lem mode id s = (size_in-retain s.modes mode id, listed_of s.outputs mode id)

find-configured :
    (crtc mode : ℕ) (x y : ℤ) (size : Option (ℕ × ℕ)) (os : List Output) (o : Output)
    → find (of_crtc crtc) os ≡ some o
    → find (of_crtc crtc) (update_first (of_crtc crtc) (configured x y mode size) os)
      ≡ some (configured x y mode size o)
find-configured crtc mode x y none [] o h = cc
find-configured crtc mode x y (some (w, k)) [] o h = cc
find-configured crtc mode x y none (p ∷ os) o h =
    ground (arith, find-configured crtc mode x y none os o)
find-configured crtc mode x y (some (w, k)) (p ∷ os) o h =
    ground (arith, find-configured crtc mode x y (some (w, k)) os o)

-- A CRTC is reconfigured exactly if it is known and so is the mode, which may be 0 for none: then its output has
-- the position and the mode, and the mode's size unless there is none, and the configuration timestamp advances; the
-- screen's size stays in either case. Otherwise nothing changes.
pub set_crtc_lem :
    (crtc : ℕ) (x y : ℤ) (mode : ℕ) (s : Screen)
    → let (t, done) = set_crtc crtc x y mode s in
      let size = if mode == 0 then none else mode_size s mode in
      ((done ≡ false)
        × (t ≡ s)
        × ((output_by_crtc crtc s ≡ none) ⊎ ((mode == 0) ≡ false) × (mode_size s mode ≡ none)))
      ⊎ ((o : Output) × (done ≡ true)
          × (output_by_crtc crtc s ≡ some o)
          × (output_by_crtc crtc t ≡ some (sized size (record o { mode = mode; x = x; y = y })))
          × (t.width ≡ s.width)
          × (t.height ≡ s.height)
          × (t.modes ≡ s.modes)
          × (t.config_timestamp ≡ wrapping_add32 s.config_timestamp 1))
unfolding set_crtc output_by_crtc bump
set_crtc_lem crtc x y mode s =
    let size : Option (ℕ × ℕ) = if mode == 0 then none else mode_size s mode in
    elim (Option-cases (find (of_crtc crtc) s.outputs)) [
      | inl e ↦ inl (ground arith, ground arith, ground arith)
      | inr (o, e) ↦ elim (Bool-cases (not (mode == 0) && not (is_some size))) [
        | inl bad ↦ inl (ground arith, ground arith, inr (ground arith, ground arith))
        | inr good ↦ inr (
          o,
          ground arith,
          e,
          ground (arith, find-configured crtc mode x y size s.outputs o e),
          ground arith,
          ground arith,
          ground arith,
          ground arith,
        )
      ]
    ]
