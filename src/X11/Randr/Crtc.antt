-- ===== src/X11/Randr/Crtc.antt =====
-- bridge/x11/randr.rs: the mode that drives an output: what a client sets, and what the compositor does.
use xwlrvnc.Base.{
  ℕ, Bool, true, false, not, ◌&&◌, ◌||◌, ◌==◌, if◌then◌else◌, List, [], ◌∷◌, map, Option, none,
  some, find, retain, contains, update_first, is_some,
}
use xwlrvnc.Base.Int.{ℤ}
use xwlrvnc.X11.Randr.{
  Screen, Output, Mode, mode_size, list_mode, prune_modes, bump, alloc_mode, is_wayland,
  output_by_crtc,
}
use xwlrvnc.X11.Randr.Layout.{relayout_physical, recompute_bounds}

abbrev pub of_crtc : ℕ → Output → Bool
of_crtc crtc o = o.crtc_id == crtc

abbrev pub is_size : ℕ → ℕ → Option (ℕ × ℕ) → Bool
is_size width height none = false
is_size width height (some (w, h)) = w == width && h == height

abbrev pub sized : Option (ℕ × ℕ) → Output → Output
sized none o = o
sized (some (w, h)) o = record o { width = w; height = h }

abbrev pub configured : ℤ → ℤ → ℕ → Option (ℕ × ℕ) → Output → Output
configured x y mode size o = sized size (record o { mode = mode; x = x; y = y })

unfoldable pub set_crtc : ℕ → ℤ → ℤ → ℕ → Screen → Screen × Bool
unfolding output_by_crtc
set_crtc crtc x y mode s =
    let size = if mode == 0 then none else mode_size s mode in
    if not (mode == 0) && not (is_some size)
    then (s, false)
    else if is_some (output_by_crtc crtc s)
    then (
      bump
          (record s { outputs = update_first (of_crtc crtc) (configured x y mode size) s.outputs }),
      true,
    )
    else (s, false)

-- The identifiers of the native modes, other than `mode`, that pass a test.
abbrev pub natives : (Mode → Bool) → ℕ → List Mode → List ℕ
natives p mode ms =
    map (λ (m : Mode). m.info.id) (retain (λ m. m.ours && not (m.info.id == mode) && p m) ms)

abbrev pub drop_modes : List ℕ → Output → Output
drop_modes ids o = record o { mode_ids = retain (λ m. not (contains ids m)) o.mode_ids }

-- What `adopt_mode` does of an output and a mode that have the size `w` by `h`.
unfoldable pub adopted : ℕ → ℕ → ℕ → ℕ → Screen → Screen
unfolding prune_modes bump
adopted crtc mode w h s =
    let native = natives (λ m. m.info.width == w && m.info.height == h) mode s.modes in
    let listed =
      update_first (of_crtc crtc) (λ o. record (list_mode mode o) { mode = mode }) s.outputs in
    bump
      (prune_modes (record s { outputs = update_first (of_crtc crtc) (drop_modes native) listed }))

unfoldable pub adopt_mode : ℕ → ℕ → Screen → Screen
unfolding output_by_crtc
adopt_mode crtc mode s = elim (mode_size s mode) [
  | none ↦ s
  | some (w, h) ↦ elim (output_by_crtc crtc s) [
    | none ↦ s
    | some o ↦
        if o.width == w && o.height == h && not (o.mode == mode) then adopted crtc mode w h s else s
  ]
]

-- A listed mode of the output's size, or a new one.
abbrev pub mode_for : List ℕ → ℕ → ℕ → ℕ → Screen → Screen × ℕ
mode_for ids width height refresh_mhz s =
    elim (find (λ id. is_size width height (mode_size s id)) ids) [
      | some id ↦ (s, id)
      | none ↦ alloc_mode width height refresh_mhz s
    ]

-- One output of `restore_outputs`, and whether it changed.
abbrev pub restore : Output → Screen → Screen × Output × Bool
restore o s =
    if not (is_wayland o) || is_size o.width o.height (mode_size s o.mode)
    then (s, o, false)
    else (let (t, mode) = mode_for o.mode_ids o.width o.height 0 s in
        (t, record (list_mode mode o) { mode = mode }, true))

-- The loop. It reads and extends the modes of the screen, and rewrites its outputs one by one.
abbrev pub restore_all : List Output → Screen → Screen × List Output × Bool
restore_all [] s = (s, [], false)
restore_all (o ∷ os) s =
    let (t, p, changed) = restore o s in
    let (u, ps, more) = restore_all os t in (u, p ∷ ps, changed || more)

unfoldable pub restore_outputs : Screen → Screen × Bool
unfolding bump
restore_outputs s =
    let (t, outputs, changed) = restore_all s.outputs s in
    let (u, bounds) = recompute_bounds (relayout_physical (record t { outputs = outputs })) in
    (if changed && not bounds then bump u else u, changed || bounds)
