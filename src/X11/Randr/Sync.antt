-- ===== src/X11/Randr/Sync.antt =====
-- bridge/x11/randr.rs: what the Wayland thread reports of an output.
use xwlrvnc.Base.{
  ℕ, Bool, true, false, not, ◌&&◌, ◌==◌, if◌then◌else◌, List, [], ◌∷◌, ◌++◌, none, some, find,
  retain, contains, update_first, is_empty, length,
}
use xwlrvnc.Base.Int.{ℤ, pos, eqb_ℤ}
use xwlrvnc.X11.Randr.{
  Screen, Output, mode_size, list_mode, prune_modes, alloc_mode, alloc_id, is_wayland, decimal, mm,
}
use xwlrvnc.X11.Randr.Layout.{relayout_physical, recompute_bounds}
use xwlrvnc.X11.Randr.Crtc.{is_size, mode_for, natives, drop_modes}

-- The arguments of `sync_wayland_output` after the name.
pub record Report : Type 0 where
  pub lx : ℤ
  pub ly : ℤ
  pub lw : ℤ
  pub lh : ℤ
  pub width : ℕ
  pub height : ℕ
  pub refresh_mhz : ℕ

abbrev pub of_wl_name : ℕ → Output → Bool
of_wl_name wl_name o = o.wl_name == wl_name

abbrev pub same_mode : Report → Output → Screen → Bool
same_mode r o s = is_size r.width r.height (mode_size s o.mode)

abbrev pub unchanged : Report → Output → Screen → Bool
unchanged r o s =
    eqb_ℤ o.lx r.lx
    && eqb_ℤ o.ly r.ly
    && eqb_ℤ o.lw r.lw
    && eqb_ℤ o.lh r.lh
    && o.width == r.width
    && o.height == r.height
    && same_mode r o s

abbrev pub reported : Report → ℕ → Output → Output
reported r mode o = record (list_mode mode o) {
  lx = r.lx;
  ly = r.ly;
  lw = r.lw;
  lh = r.lh;
  width = r.width;
  height = r.height;
  mode = mode;
}

-- The branch of an output that is known, up to the layout.
unfoldable pub update_output : ℕ → Report → Output → Screen → Screen
unfolding prune_modes
update_output wl_name r o s =
    let (t, mode) =
      if same_mode r o s
      then (s, o.mode)
      else mode_for o.mode_ids r.width r.height r.refresh_mhz s in
    let p = reported r mode o in
    let u = record t { outputs = update_first (of_wl_name wl_name) (reported r mode) t.outputs } in
    let stale = natives (λ m. contains p.mode_ids m.info.id) mode u.modes in
    if is_empty stale
    then u
    else prune_modes
        (record u { outputs = update_first (of_wl_name wl_name) (drop_modes stale) u.outputs })

-- `format!("output-{wl_name}")`.
abbrev pub default_name : ℕ → List ℕ
default_name wl_name = b'o' ∷ b'u' ∷ b't' ∷ b'p' ∷ b'u' ∷ b't' ∷ b'-' ∷ decimal 10 wl_name

abbrev pub new_output : ℕ → List ℕ → Report → ℕ → ℕ → ℕ → Output
new_output wl_name name r output_id crtc_id mode = record {
  output_id = output_id;
  crtc_id = crtc_id;
  name = if is_empty name then default_name wl_name else name;
  x = pos 0;
  y = pos 0;
  width = r.width;
  height = r.height;
  lx = r.lx;
  ly = r.ly;
  lw = r.lw;
  lh = r.lh;
  mode = mode;
  mode_ids = mode ∷ [];
  mm_width = mm r.width;
  mm_height = mm r.height;
  wl_name = wl_name;
  connected = true;
}

-- The branch of an output that is not known, up to the layout.
unfoldable pub add_output : ℕ → List ℕ → Report → Screen → Screen
unfolding prune_modes
add_output wl_name name r s =
    let (t, mode) = alloc_mode r.width r.height r.refresh_mhz s in
    let (u, output_id) = alloc_id t in
    let (v, crtc_id) = alloc_id u in
    let o = new_output wl_name name r output_id crtc_id mode in
    prune_modes (record v { outputs = retain is_wayland (v.outputs ++ (o ∷ [])) })

abbrev pub laid_out : Screen → Screen
laid_out s = (recompute_bounds (relayout_physical s)).0

unfoldable pub sync_wayland_output : ℕ → List ℕ → Report → Screen → Screen × Bool
sync_wayland_output wl_name name r s = elim (find (of_wl_name wl_name) s.outputs) [
  | none ↦ (laid_out (add_output wl_name name r s), true)
  | some o ↦ if unchanged r o s then (s, false) else (laid_out (update_output wl_name r o s), true)
]

unfoldable pub remove_wayland_output : ℕ → Screen → Screen × Bool
unfolding prune_modes
remove_wayland_output wl_name s =
    let kept = retain (λ o. not (o.wl_name == wl_name)) s.outputs in
    if length kept == length s.outputs
    then (s, false)
    else (laid_out (prune_modes (record s { outputs = kept })), true)
