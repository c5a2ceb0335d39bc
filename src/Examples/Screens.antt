-- ===== src/Examples/Screens.antt =====
-- Concrete screens, and a compositor that resizes its output.
use xwlrvnc.Base.{map, ◌≡◌, refl, List, [], ◌∷◌, arith}
use xwlrvnc.X11.Randr.{Screen, alloc_id, alloc_mode, new, new_mode}
use xwlrvnc.X11.Randr.Sync.{Report, sync_wayland_output}
use xwlrvnc.X11.Randr.Reports.{Synced, sync_wayland_output-Synced}
use xwlrvnc.X11.Randr.Rows.{Lengths}
use xwlrvnc.X11.Randr.Rows.Places.{pack_axis-row}
use xwlrvnc.X11.Randr.Orders.{shift}
use mathlib.Core.List.Permᴰ.{swap}
use xwlrvnc.X11.Randr.Pack.{Item, pack_axis}
use xwlrvnc.Base.Int.{pos}

-- The screen at the start.
abbrev blank : Screen
blank = new 1024 640 480

abbrev report : Report
report = record {
  lx = pos 0;
  ly = pos 0;
  lw = pos 1280;
  lh = pos 800;
  width = 1280;
  height = 800;
  refresh_mhz = 60000;
}

-- The output at the left is scaled by two, and listed last.
abbrev lengths : List Lengths
lengths = (640, 1280) ∷ (800, 800) ∷ []

abbrev listed : List Item
listed =
    record { start = pos 740; len = pos 800; phys = pos 800 }
    ∷ record { start = pos 100; len = pos 640; phys = pos 1280 }
    ∷ []

sync_wayland_output-Synced_example :
    Synced 7 report blank (sync_wayland_output 7 (b'H' ∷ []) report blank)
unfolding new alloc_mode alloc_id new_mode
sync_wayland_output-Synced_example =
    sync_wayland_output-Synced 7 (b'H' ∷ []) report blank (refl) (ground arith)

pack_axis-row_example : pack_axis listed ≡ map (λ it. pos (shift it.start listed)) listed
pack_axis-row_example =
    pack_axis-row 100 lengths listed (swap refl refl) (omega arith, (omega arith, tt)) (omega arith)
      (omega arith)
