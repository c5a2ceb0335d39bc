-- ===== src/Examples/Typing.antt =====
-- Concrete keys that are typed, and a concrete keyboard.
use xwlrvnc.Base.{
  ℕ, ◌+◌, ◌-◌, ◌≤◌, ◌≡◌, refl, ◌⊎◌, true, some, List, [], ◌∷◌, arith, if◌then◌else◌, any, tally,
}
use xwlrvnc.Input.Devices.Presses.{IsBalanced, run-IsBalanced}
use xwlrvnc.Input.Devices.Events.{
  Event, Returns, fakes, run, sets_devices, sets_keymap, sets_layout, sets_modifier_keymap,
}
use xwlrvnc.Input.Devices.{XkbState, bit, new}
use xwlrvnc.Input.Keymap.Dedup.{dedup_lem}
use xwlrvnc.Input.Keymap.{Key, at_both, dedup, has}
use xwlrvnc.Base.Int.{pos}
use xwlrvnc.Util.Layout.{OutputRect}

-- A keyboard state that counts the keys that are down.
abbrev counting : XkbState ℕ
counting = record {
  has_layout = λ kc x. true;
  update_key = λ kc press x. if press then x + 1 else x - 1;
  depressed = λ x. x;
  latched = λ x. 0;
  locked = λ x. 0;
  group = λ x. 0;
}

abbrev panel : OutputRect
panel = record {
  px = pos 0;
  py = pos 0;
  pw = pos 1280;
  ph = pos 800;
  lx = pos 0;
  ly = pos 0;
  lw = pos 640;
  lh = pos 400;
}

-- Shift is pressed twice, as an autorepeat does.
abbrev typed : List (Event ℕ)
typed =
    sets_devices
    ∷ sets_keymap 1 4096
    ∷ sets_modifier_keymap (some 0)
    ∷ sets_layout (panel ∷ [])
    ∷ fakes 2 50 (pos 0) (pos 0) 10
    ∷ fakes 2 50 (pos 0) (pos 0) 40
    ∷ fakes 6 0 (pos 5) (pos 5) 50
    ∷ []

run-IsBalanced_example :
    Returns (IsBalanced counting 50) (run counting typed (new counting 640 480))
unfolding new bit
run-IsBalanced_example =
    run-IsBalanced counting 50 typed (new counting 640 480) (omega arith)
      (
        tt,
        (
          tt,
          (
            tt,
            (
              (
                (
                  (omega arith, omega arith, omega arith, omega arith),
                  (omega arith, omega arith, omega arith, omega arith),
                ),
                tt,
              ),
              (omega arith, (omega arith, (omega arith, tt))),
            ),
          ),
        ),
      )
      (record { four = refl; balanced = refl; laid = tt })

-- The comma key with `less` on it, and the key that has `less` alone.
abbrev keyboard : List Key
keyboard =
    record { base = 44; shift = 60; level3 = 0; shift3 = 0 }
    ∷ record { base = 60; shift = 62; level3 = 124; shift3 = 166 }
    ∷ []

dedup_lem_example :
    (any (has 60) (dedup keyboard) ≡ any (has 60) keyboard)
    × ((any (at_both 60) keyboard ≡ true) ⊎ (tally (has 60) (dedup keyboard) ≤ 1))
dedup_lem_example = dedup_lem 60 keyboard (λ e. ground arith)
