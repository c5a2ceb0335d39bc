-- ===== src/X11/Randr/Mirror.antt =====
-- What it is that the screen mirrors an output, and what keeps it so.
use xwlrvnc.Base.Int.{ℤ}
use xwlrvnc.X11.Randr.Sync.{Report, of_wl_name, laid_out}
use xwlrvnc.Base.{
  ℕ, ◌≡◌, inl, inr, refl, ap, ◌∙◌, Bool, true, List, [], ◌∷◌, map, find, contains, arith,
  Bool-cases, none, some, Option-cases, find_passes,
}
use xwlrvnc.X11.Randr.{
  Screen, Output, bump, mode_size, prune_modes, lists, new_mode, alloc_mode, alloc_id,
}
use xwlrvnc.X11.Randr.Pack.{pack_axis}
use xwlrvnc.X11.Randr.Layout.{x_item, y_item, relayout_physical, recompute_bounds, place, clamp16}
use xwlrvnc.X11.Randr.Crtc.{is_size, mode_for}
use xwlrvnc.X11.Randr.Lookups.{size_in-pruned, any_of_find, size_in-append, is_size-some}

-- The next identifier is not that of a mode.
abbrev pub IsFresh : Screen → Type 0
IsFresh s = mode_size s s.next_id ≡ none

-- What the layout leaves of an output: all but its place.
abbrev pub Placed : Output → Output → Type 0
Placed o p = p ≡ record o { x = p.x; y = p.y }

pub same_head :
    (wl_name : ℕ) (o' : Output) (os : List Output) (o : Output)
    → find (of_wl_name wl_name) (o' ∷ os) ≡ some o
    → of_wl_name wl_name o' ≡ true
    → o' ≡ o
same_head wl_name o' os o h hit = ground arith

pub find-place :
    (wl_name : ℕ) (pxs pys : List ℤ) (os : List Output) (o : Output)
    → find (of_wl_name wl_name) os ≡ some o
    → (p : Output) × (find (of_wl_name wl_name) (place pxs pys os) ≡ some p) × Placed o p
find-place wl_name [] pys os o h = (o, h, refl)
find-place wl_name (px ∷ pxs) [] os o h = (o, h, refl)
find-place wl_name (px ∷ pxs) (py ∷ pys) [] o h = cc
find-place wl_name (px ∷ pxs) (py ∷ pys) (o' ∷ os) o h = elim (Bool-cases (of_wl_name wl_name o')) [
  | inl hit ↦ (
    record o' { x = clamp16 px; y = clamp16 py },
    ground arith,
    ap (λ (a : Output). record a { x = clamp16 px; y = clamp16 py })
        (same_head wl_name o' os o h hit),
  )
  | inr miss ↦
      let (p, e, q) = find-place wl_name pxs pys os o (ground arith) in (p, ground arith, q)
]

pub laid_out_lem :
    (wl_name : ℕ) (s : Screen) (o : Output)
    → find (of_wl_name wl_name) s.outputs ≡ some o
    → (p : Output) × (find (of_wl_name wl_name) (laid_out s).outputs ≡ some p)
      × Placed o p
      × ((laid_out s).modes ≡ s.modes)
unfolding recompute_bounds relayout_physical bump
laid_out_lem wl_name s o h =
    let (p, e, q) =
      find-place wl_name (pack_axis (map x_item s.outputs)) (pack_axis (map y_item s.outputs))
        s.outputs o h in
    (p, ground arith, q, ground arith)

pub alloc_mode_lem :
    (width height refresh_mhz : ℕ) (s : Screen)
    → IsFresh s
    → let (t, id) = alloc_mode width height refresh_mhz s in
      (mode_size t id ≡ some (width, height)) × (t.outputs ≡ s.outputs)
unfolding alloc_mode alloc_id new_mode
alloc_mode_lem width height refresh_mhz s h =
    (size_in-append s.modes (new_mode s.next_id width height refresh_mhz) s.next_id h refl, refl)

pub mode_for_lem :
    (ids : List ℕ) (width height refresh_mhz : ℕ) (s : Screen)
    → IsFresh s
    → let (t, id) = mode_for ids width height refresh_mhz s in
      (mode_size t id ≡ some (width, height)) × (t.outputs ≡ s.outputs)
mode_for_lem ids width height refresh_mhz s h =
    let fits : ℕ → Bool = λ id. is_size width height (mode_size s id) in
    elim (Option-cases (find fits ids)) [
      | inl e ↦ ground (arith, alloc_mode_lem width height refresh_mhz s h)
      | inr (id, e) ↦
          ground (arith, is_size-some width height (mode_size s id) (find_passes fits ids id e))
    ]

-- The output of this name has the reported rectangle and size, and is driven by a mode of that size.
abbrev pub Mirrors : ℕ → Report → Screen → Output → Type 0
Mirrors wl_name r s o =
    (find (of_wl_name wl_name) s.outputs ≡ some o)
    × (o.lx ≡ r.lx)
    × (o.ly ≡ r.ly)
    × (o.lw ≡ r.lw)
    × (o.lh ≡ r.lh)
    × (o.width ≡ r.width)
    × (o.height ≡ r.height)
    × (mode_size s o.mode ≡ some (r.width, r.height))

pub laid_out-Mirrors :
    (wl_name : ℕ) (r : Report) (s : Screen) (o : Output)
    → Mirrors wl_name r s o
    → (p : Output) × Mirrors wl_name r (laid_out s) p
      × (p.mode_ids ≡ o.mode_ids)
      × (p.mode ≡ o.mode)
laid_out-Mirrors wl_name r s o m =
    let (p, e, q, ms) = laid_out_lem wl_name s o m.0 in
    let mode_kept : p.mode ≡ o.mode = ap (λ (z : Output). z.mode) q in
    (
      p,
      (
        e,
        ap (λ (z : Output). z.lx) q ∙ m.1,
        ap (λ (z : Output). z.ly) q ∙ m.2,
        ap (λ (z : Output). z.lw) q ∙ m.3,
        ap (λ (z : Output). z.lh) q ∙ m.4,
        ap (λ (z : Output). z.width) q ∙ m.5,
        ap (λ (z : Output). z.height) q ∙ m.6,
        ground (arith, ms, mode_kept, m),
      ),
      ap (λ (z : Output). z.mode_ids) q,
      mode_kept,
    )

pub pruned-Mirrors :
    (wl_name : ℕ) (r : Report) (s : Screen) (o : Output)
    → Mirrors wl_name r s o
    → contains o.mode_ids o.mode ≡ true
    → Mirrors wl_name r (prune_modes s) o
unfolding prune_modes
pruned-Mirrors wl_name r s o m h =
    let listed = any_of_find (of_wl_name wl_name) (lists o.mode) s.outputs o m.0 h in
    ground (arith, size_in-pruned s.outputs s.modes o.mode listed)
