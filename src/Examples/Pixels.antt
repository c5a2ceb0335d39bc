-- ===== src/Examples/Pixels.antt =====
-- A concrete capture, and a read of it.
use xwlrvnc.Base.{◌+◌, ◌*◌, ◌≡◌, refl, true, false, ◌&&◌, arith, if◌then◌else◌}
use xwlrvnc.Capture.{Framebuffer, read_rect_into, zeroes}
use xwlrvnc.Capture.Blit.{Source}
use xwlrvnc.Capture.Overlap.{is_place, place}
use xwlrvnc.Capture.Blit.Shown.{blended}
use xwlrvnc.Capture.Screen.{read_rect_into-blit_diff}
use xwlrvnc.Util.Transform.{normal}
use xwlrvnc.Base.Int.{negsuc, pos, ℤ}
use xwlrvnc.Capture.Turned.{blit_diff}

-- Two pixels in one row, blue first.
abbrev captured : Source
captured = record {
  width = 2;
  height = 1;
  stride = 8;
  bytes = record { len = 8; at = λ i. 10 + i };
  y_invert = false;
  chan = record { blue = 0; green = 1; red = 2 };
}

abbrev screen : Framebuffer
screen = record { inner = record { width = 4; height = 3; bytes = zeroes 48 }; last_read_ms = 0 }

-- One column left of the screen.
abbrev ox : ℤ
ox = negsuc 0

read_rect_into-blit_diff_example :
    (read_rect_into 9
        (pos 0)
        (pos 0)
        2
        2
        (zeroes 16)
        (blit_diff true normal captured ox (pos 1) screen).0).0.at
      (1 * (2 * 4) + (0 * 4 + 2))
    ≡ (if is_place (pos 0) 0 screen.inner.width && is_place (pos 0) 1 screen.inner.height
        then blended captured ox (pos 1) screen.inner (place (pos 0) 0) (place (pos 0) 1) 2
        else 0)
read_rect_into-blit_diff_example =
    read_rect_into-blit_diff true captured ox (pos 1) 9 (pos 0) (pos 0) 2 2 (zeroes 16) screen 1 0 2
      (record { room = omega arith; width = omega arith; height = omega arith })
      (omega arith, omega arith) (omega arith, omega arith)
      (record { len = refl; width = omega arith; height = omega arith }) (omega arith, omega arith)
      (omega arith, omega arith) (omega arith) (omega arith) (omega arith) (omega arith)
      (omega arith) (omega arith)
