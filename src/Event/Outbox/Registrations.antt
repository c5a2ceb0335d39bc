-- ===== src/Event/Outbox/Registrations.antt =====
-- The XFixes selection registrations: one mask for each selection and window.
use xwlrvnc.Base.{ℕ, ◌≡◌, not, ◌&&◌, ◌==◌, if◌then◌else◌, List, [], ◌∷◌, ◌++◌, arith, retain}
use xwlrvnc.Event.Outbox.{Client, SelReg, select_selection, forget_window}

-- The mask that `window` has on the selection `atom`, 0 if it has none.
abbrev pub mask_in : List SelReg → ℕ → ℕ → ℕ
mask_in [] atom window = 0
mask_in (r ∷ rs) atom window =
    if r.atom == atom && r.window == window then r.mask else mask_in rs atom window

mask_in-select :
    (rs : List SelReg) (atom window mask a w : ℕ)
    → mask_in
        (retain (λ s. not (s.atom == atom && s.window == window)) rs
          ++ (record { atom = atom; window = window; mask = mask } ∷ []))
        a
        w
      ≡ (if atom == a && window == w then mask else mask_in rs a w)
mask_in-select [] atom window mask a w = ground arith
mask_in-select (r ∷ rs) atom window mask a w =
    ground (arith, mask_in-select rs atom window mask a w)

mask_in-clear :
    (rs : List SelReg) (atom window a w : ℕ)
    → mask_in (retain (λ s. not (s.atom == atom && s.window == window)) rs) a w
      ≡ (if atom == a && window == w then 0 else mask_in rs a w)
mask_in-clear [] atom window a w = ground arith
mask_in-clear (r ∷ rs) atom window a w = ground (arith, mask_in-clear rs atom window a w)

mask_in-forget :
    (rs : List SelReg) (window a w : ℕ)
    → mask_in (retain (λ s. not (s.window == window)) rs) a w
      ≡ (if window == w then 0 else mask_in rs a w)
mask_in-forget [] window a w = ground arith
mask_in-forget (r ∷ rs) window a w = ground (arith, mask_in-forget rs window a w)

-- Selecting a mask sets it for that selection and window, 0 included, and for no other; destroying a
-- window clears every mask of that window and of no other.
pub registrations_lem :
    (c : Client) (atom window mask a w : ℕ)
    → (mask_in (select_selection c atom window mask).selections a w
        ≡ (if atom == a && window == w then mask else mask_in c.selections a w))
      × (mask_in (forget_window c window).selections a w
          ≡ (if window == w then 0 else mask_in c.selections a w))
unfolding select_selection forget_window
registrations_lem c atom window mask a w = (
  ground (
    arith,
    mask_in-select c.selections atom window mask a w,
    mask_in-clear c.selections atom window a w,
  ),
  mask_in-forget c.selections window a w,
)
