-- ===== src/X11/Randr/Reports.antt =====
-- The compositor's reports, and what the screen shows after them.
use xwlrvnc.Base.Int.{eq_of_parts}
use xwlrvnc.X11.Randr.Sync.{
  new_output, Report, of_wl_name, same_mode, unchanged, reported, update_output, add_output,
  laid_out, sync_wayland_output,
}
use xwlrvnc.Base.{
  ℕ, ◌≡◌, ◌≢◌, ◌⊎◌, inl, inr, refl, ap, ◌∙◌, Bool, true, false, ==_refl, if◌then◌else◌, List, [],
  ◌∷◌, ◌++◌, find, update_first, contains, retain, is_empty, arith, Bool-cases, none, some,
  Option-cases,
}
use xwlrvnc.X11.Randr.{Screen, Output, mode_size, alloc_mode, alloc_id, is_wayland}
use xwlrvnc.X11.Randr.Crtc.{mode_for, natives, drop_modes}
use xwlrvnc.X11.Randr.Lookups.{
  find-update_first, find-append, is_size-some, contains-list_mode, contains-drop, contains-natives,
}
use xwlrvnc.X11.Randr.Mirror.{
  alloc_mode_lem, mode_for_lem, laid_out-Mirrors, pruned-Mirrors, IsFresh, Mirrors,
}

-- The screen and the mode that an update of a known output goes on with.
abbrev pub chosen : Report → Output → Screen → Screen × ℕ
chosen r o s =
    if same_mode r o s then (s, o.mode) else mode_for o.mode_ids r.width r.height r.refresh_mhz s

chosen_lem :
    (r : Report) (o : Output) (s : Screen)
    → IsFresh s
    → (mode_size (chosen r o s).0 (chosen r o s).1 ≡ some (r.width, r.height))
      × ((chosen r o s).0.outputs ≡ s.outputs)
chosen_lem r o s h = elim (Bool-cases (same_mode r o s)) [
  | inl same ↦ ground (arith, is_size-some r.width r.height (mode_size s o.mode) same)
  | inr differs ↦ ground (arith, mode_for_lem o.mode_ids r.width r.height r.refresh_mhz s h)
]

reported-Mirrors :
    (wl_name mode : ℕ) (r : Report) (o : Output) (t : Screen)
    → find (of_wl_name wl_name) t.outputs ≡ some o
    → mode_size t mode ≡ some (r.width, r.height)
    → Mirrors wl_name r
        (record t { outputs = update_first (of_wl_name wl_name) (reported r mode) t.outputs })
        (reported r mode o)
reported-Mirrors wl_name mode r o t e m = (
  find-update_first wl_name (reported r mode) t.outputs o e refl,
  refl,
  refl,
  refl,
  refl,
  refl,
  refl,
  m,
)

dropped-Mirrors :
    (wl_name : ℕ) (stale : List ℕ) (r : Report) (p : Output) (u : Screen)
    → Mirrors wl_name r u p
    → Mirrors wl_name r
        (record u { outputs = update_first (of_wl_name wl_name) (drop_modes stale) u.outputs })
        (drop_modes stale p)
dropped-Mirrors wl_name stale r p u m = (
  find-update_first wl_name (drop_modes stale) u.outputs p m.0 refl,
  m.1,
  m.2,
  m.3,
  m.4,
  m.5,
  m.6,
  m.7,
)

update-Mirrors :
    (wl_name : ℕ) (r : Report) (o : Output) (s : Screen)
    → find (of_wl_name wl_name) s.outputs ≡ some o
    → IsFresh s
    → (p : Output) × Mirrors wl_name r (update_output wl_name r o s) p
      × (contains p.mode_ids p.mode ≡ true)
unfolding update_output
update-Mirrors wl_name r o s e h =
    let t = (chosen r o s).0 in
    let mode = (chosen r o s).1 in
    let p = reported r mode o in
    let u : Screen = record t {
      outputs = update_first (of_wl_name wl_name) (reported r mode) t.outputs;
    } in
    let stale = natives (λ m. contains p.mode_ids m.info.id) mode u.modes in
    let found : find (of_wl_name wl_name) t.outputs ≡ some o =
      ap (find (of_wl_name wl_name)) (chosen_lem r o s h).1 ∙ e in
    let shown : Mirrors wl_name r u p =
      reported-Mirrors wl_name mode r o t found (chosen_lem r o s h).0 in
    let own = contains-list_mode mode o in
    elim (Bool-cases (is_empty stale)) [
      | inl nothing_stale ↦ (p, rw nothing_stale shown, own)
      | inr some_stale ↦
          let kept =
            contains-drop stale p.mode_ids mode
              (contains-natives (λ m. contains p.mode_ids m.info.id) mode u.modes) own in
          let w : Screen = record u {
            outputs = update_first (of_wl_name wl_name) (drop_modes stale) u.outputs;
          } in
          (
            drop_modes stale p,
            rw some_stale (
                pruned-Mirrors wl_name r w (drop_modes stale p)
                  (dropped-Mirrors wl_name stale r p u shown) kept),
            kept,
          )
    ]

add-Mirrors :
    (wl_name : ℕ) (name : List ℕ) (r : Report) (s : Screen)
    → find (of_wl_name wl_name) s.outputs ≡ none
    → wl_name ≢ 0
    → IsFresh s
    → (p : Output) × Mirrors wl_name r (add_output wl_name name r s) p
      × (contains p.mode_ids p.mode ≡ true)
unfolding add_output alloc_id
add-Mirrors wl_name name r s e z h =
    let t = (alloc_mode r.width r.height r.refresh_mhz s).0 in
    let mode = (alloc_mode r.width r.height r.refresh_mhz s).1 in
    let made = alloc_mode_lem r.width r.height r.refresh_mhz s h in
    let u = (alloc_id t).0 in
    let v = (alloc_id u).0 in
    let o = new_output wl_name name r (alloc_id t).1 (alloc_id u).1 mode in
    let w : Screen = record v { outputs = retain is_wayland (v.outputs ++ (o ∷ [])) } in
    let own : contains o.mode_ids o.mode ≡ true = ground (arith, ==_refl mode) in
    let none_before : find (of_wl_name wl_name) t.outputs ≡ none =
      ap (find (of_wl_name wl_name)) made.1 ∙ e in
    (
      o,
      pruned-Mirrors wl_name r w o
          (
            find-append wl_name t.outputs o none_before refl z,
            refl,
            refl,
            refl,
            refl,
            refl,
            refl,
            made.0,
          )
          own,
      own,
    )

-- What a report leaves, with the answer whether anything changed.
abbrev pub Synced : ℕ → Report → Screen → Screen × Bool → Type 0
Synced wl_name r s (t, changed) =
    (p : Output) × Mirrors wl_name r t p
    × (((changed ≡ true) × (contains p.mode_ids p.mode ≡ true)) ⊎ ((changed ≡ false) × (t ≡ s)))

laid_out-Synced :
    (wl_name : ℕ) (r : Report) (s t : Screen) (o : Output)
    → Mirrors wl_name r t o
    → contains o.mode_ids o.mode ≡ true
    → Synced wl_name r s (laid_out t, true)
laid_out-Synced wl_name r s t o m own =
    let (p, n, ids, mode) = laid_out-Mirrors wl_name r t o m in (p, n, inl (refl, ground arith))

unchanged-Mirrors :
    (wl_name : ℕ) (r : Report) (o : Output) (s : Screen)
    → find (of_wl_name wl_name) s.outputs ≡ some o
    → unchanged r o s ≡ true
    → Mirrors wl_name r s o
unchanged-Mirrors wl_name r o s e h = ground (
  arith,
  eq_of_parts o.lx r.lx,
  eq_of_parts o.ly r.ly,
  eq_of_parts o.lw r.lw,
  eq_of_parts o.lh r.lh,
  is_size-some r.width r.height (mode_size s o.mode),
)

-- Once the compositor has reported an output, the screen's output of that name has the reported rectangle and
-- size, and is driven by a mode of this size. If anything changed, or the output is new, it also lists that mode;
-- otherwise the screen is as it was. This takes the next identifier not to be that of a mode, and the
-- registry name not to be 0, which is the synthetic output's.
pub sync_wayland_output-Synced :
    (wl_name : ℕ) (name : List ℕ) (r : Report) (s : Screen)
    → IsFresh s
    → wl_name ≢ 0
    → Synced wl_name r s (sync_wayland_output wl_name name r s)
unfolding sync_wayland_output
sync_wayland_output-Synced wl_name name r s h z =
    elim (Option-cases (find (of_wl_name wl_name) s.outputs)) [
      | inl e ↦
          let (o, m, own) = add-Mirrors wl_name name r s e z h in
          rw (e, sync_wayland_output)
            (laid_out-Synced wl_name r s (add_output wl_name name r s) o m own)
      | inr (o, e) ↦ elim (Bool-cases (unchanged r o s)) [
        | inl same ↦
            rw (e, same, sync_wayland_output)
              (o, unchanged-Mirrors wl_name r o s e same, inr (refl, refl))
        | inr differs ↦
            let (p, m, own) = update-Mirrors wl_name r o s e h in
            rw (e, differs, sync_wayland_output)
              (laid_out-Synced wl_name r s (update_output wl_name r o s) p m own)
      ]
    ]
