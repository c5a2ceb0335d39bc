-- ===== src/Input/Devices/Presses.antt =====
-- The keys that the backend is told of: each alternates between a press and a release.
use xwlrvnc.Base.{
  ℕ, ◌+◌, ◌/◌, ◌%◌, ◌<◌, ◌≡◌, refl, sym, ◌∙◌, inl, inr, Bool, true, false, ◌&&◌, ◌||◌, Option, none,
  some, List, [], ◌∷◌, arith, Bool-cases, if◌then◌else◌, is_some, of_some, ◌==◌, ◌>>=◌, All, get_or,
  length, set, tally, tally-append,
}
use xwlrvnc.Input.Devices.Bits.{is_down-set, length-set}
use xwlrvnc.Input.Devices.Events.{
  Event, IsEvent, Returns, fakes, run, sets_devices, sets_geometry, sets_keymap, sets_layout,
  sets_modifier_keymap, step,
}
use xwlrvnc.Input.Devices.{
  Axis, Backend, Input, Request, XkbState, axis, axis_discrete, axis_source_wheel, button,
  button_code, button_press, button_release, emit, evdev, fake_input, flip, flush, flushed, frame,
  handle, is_down, key, key_press, key_release, key_state, keymap, land, modifiers, motion_abs,
  motion_notify, notches, on_button, on_key, on_plain, on_scroll, same, scroll_of, target_in,
  time32, track_key, update_tracked,
}
use xwlrvnc.Util.Layout.Bounds.{IsProper, layout_of_lem, to_logical_total}
use xwlrvnc.Base.Int.{ℤ}
use xwlrvnc.Util.Layout.{Layout, OutputRect, Target, layout_of}

abbrev pub is_key : ℕ → ℕ → Request → Bool
is_key kc state (key time code sent) = code == evdev kc && sent == state
is_key kc state _ = false

module _ {X : Type 0} (ops : XkbState X) where
  -- A layout that is made of outputs as the screen has them.
  abbrev IsLaid : Option Layout → Type 0
  IsLaid none = Unit
  IsLaid (some l) =
      (o : OutputRect) × (os : List OutputRect) × (layout_of (o ∷ os) ≡ some l)
      × All IsProper (o ∷ os)

  -- The presses sent of a key are its releases, and one more while it is down.
  pub record IsBalanced (kc : ℕ) (s : Input X) : Type 0 where
    pub four : length s.pressed ≡ 4
    pub laid : IsLaid s.layout
    pub balanced :
        tally (is_key kc 1) s.sent
        ≡ tally (is_key kc 0) s.sent + (if is_down s.pressed kc then 1 else 0)

  emit-IsBalanced :
      (kc : ℕ) (requests : List Request) (s : Input X)
      → tally (is_key kc 1) requests ≡ 0
      → tally (is_key kc 0) requests ≡ 0
      → IsBalanced kc s
      → IsBalanced kc (emit ops requests s)
  emit-IsBalanced kc requests s no_press no_release b = record {
    four = b.four;
    laid = b.laid;
    balanced = omega (
      arith,
      b.balanced,
      tally-append (is_key kc 1) s.sent requests,
      tally-append (is_key kc 0) s.sent requests,
    );
  }

  update_tracked-IsBalanced :
      (kc j : ℕ) (tracked : Option X) (press : Bool) (s : Input X)
      → IsBalanced kc s
      → IsBalanced kc (update_tracked ops tracked j press s)
  update_tracked-IsBalanced kc j none press s b = b
  update_tracked-IsBalanced kc j (some x) press s b = elim (Bool-cases (ops.has_layout j x)) [
    | inr unknown ↦ rw unknown b
    | inl known ↦
        let y = ops.update_key j press x in
        rw known (
          emit-IsBalanced kc
            (modifiers (ops.depressed y) (ops.latched y) (ops.locked y) (ops.group y) ∷ [])
            (record s { xkb = some y }) refl refl
            (record { four = b.four; balanced = b.balanced; laid = b.laid }))
  ]

  evdev_injective : (kc j : ℕ) → kc < 256 → j < 256 → (evdev j == evdev kc) ≡ (j == kc)
  evdev_injective kc j h k = ground arith

  on_key-IsBalanced :
      (kc j : ℕ) (b : Backend) (press : Bool) (now : ℕ) (s : Input X)
      → kc < 256
      → j < 256
      → IsBalanced kc s
      → IsBalanced kc (on_key ops b j press now s)
  unfolding on_key track_key
  on_key-IsBalanced kc j b press now s h k i =
      elim (Bool-cases (same (is_down s.pressed j) press)) [
        | inl unchanged ↦ rw unchanged (ground arith)
        | inr changed ↦ elim (Bool-cases b.keymap_set) [
          | inr not_yet ↦ rw not_yet i
          | inl ready ↦
              let t : Input X = record s {
                pressed = set s.pressed (j / 64) (flip (get_or s.pressed (j / 64) 0) (j % 64));
              } in
              let sent : List Request = key (time32 now) (evdev j) (key_state press) ∷ [] in
              let down = is_down-set s.pressed j kc i.four k in
              let i2 : IsBalanced kc (emit ops sent t) = record {
                laid = i.laid;
                four = length-set s.pressed (j / 64) _ ∙ i.four;
                balanced = ground (
                  arith,
                  i.balanced,
                  down,
                  evdev_injective kc j h k,
                  tally-append (is_key kc 1) s.sent sent,
                  tally-append (is_key kc 0) s.sent sent,
                );
              } in
              simp (changed, ready)
                (update_tracked-IsBalanced kc j s.xkb press (emit ops sent t) i2)
        ]
      ]

  on_plain-IsBalanced :
      (kc : ℕ) (code : Option ℕ) (press : Bool) (now : ℕ) (s : Input X)
      → IsBalanced kc s
      → IsBalanced kc (on_plain ops code press now s)
  on_plain-IsBalanced kc none press now s b = b
  on_plain-IsBalanced kc (some code) press now s b =
      emit-IsBalanced kc (button (time32 now) code press ∷ frame ∷ []) s refl refl b

  on_button-IsBalanced :
      (kc j : ℕ) (press : Bool) (now : ℕ) (s : Input X)
      → IsBalanced kc s
      → IsBalanced kc (on_button ops j press now s)
  unfolding on_button
  on_button-IsBalanced kc j press now s b = from (scroll_of j) press
    where
      from :
          (scroll : Option (Axis × ℤ)) (press : Bool)
          → IsBalanced kc (elim scroll [
            | some scroll ↦ on_scroll ops scroll press now s
            | none ↦ on_plain ops (button_code j) press now s
          ])
      from none press = on_plain-IsBalanced kc (button_code j) press now s b
      from (some (a, discrete)) false = b
      from (some (a, discrete)) true =
          let t = time32 now in
          emit-IsBalanced kc
            (axis_source_wheel
              ∷ axis t a (notches discrete)
              ∷ axis_discrete t a (notches discrete) discrete
              ∷ frame
              ∷ [])
            s refl refl b

  land-IsBalanced :
      (kc : ℕ) (t : Option Target) (x y : ℤ) (now : ℕ) (s : Input X)
      → IsBalanced kc s
      → IsBalanced kc (land ops t x y now s)
  land-IsBalanced kc none x y now s b = emit-IsBalanced kc _ s refl refl b
  land-IsBalanced kc (some t) x y now s b = emit-IsBalanced kc _ s refl refl b

  target_total :
      (l : Option Layout) (x y : ℤ)
      → IsLaid l
      → (t : Option Target) × (target_in ops l x y ≡ some t)
  target_total none x y laid = (none, refl)
  target_total (some l) x y (o, os, made, proper) =
      let (m, t, again, lands, xle, yle, wide, high) = to_logical_total x y o os proper in
      let same : m ≡ l = of_some (λ k. k ≡ l) l m (sym made ∙ again) refl in
      (some t, rw⁻¹ same lands)

  fake_input-IsBalanced :
      (kc type_ detail : ℕ) (x y : ℤ) (now : ℕ) (s : Input X)
      → kc < 256
      → detail < 256
      → IsBalanced kc s
      → Returns (IsBalanced kc) (fake_input ops type_ detail x y now s)
  unfolding fake_input motion_abs
  fake_input-IsBalanced kc type_ detail x y now s h k i = from s.backend
    where
      flush_after : (t : Input X) → IsBalanced kc t → IsBalanced kc (flushed ops t)
      flush_after t b = emit-IsBalanced kc (flush ∷ []) t refl refl b

      moved : Returns (IsBalanced kc) (motion_abs ops x y now s >>= λ t. some (flushed ops t))
      moved =
          let (t, e) = target_total s.layout x y i.laid in
          rw e (flush_after (land ops t x y now s) (land-IsBalanced kc t x y now s i))

      handled : (b : Backend) → Returns (IsBalanced kc) (handle ops b type_ detail x y now s)
      handled b = elim (Bool-cases (type_ == key_press || type_ == key_release)) [
        | inl hit ↦
            rw hit (flush_after _ (on_key-IsBalanced kc detail b (type_ == key_press) now s h k i))
        | inr no1 ↦ elim (Bool-cases (type_ == button_press || type_ == button_release)) [
          | inl hit ↦
              rw (no1, hit)
                (flush_after _ (on_button-IsBalanced kc detail (type_ == button_press) now s i))
          | inr no2 ↦ elim (Bool-cases (type_ == motion_notify)) [
            | inr no3 ↦ rw (no1, no2, no3) i
            | inl hit ↦ elim (Bool-cases (detail == 0)) [
              | inl absolute ↦ rw (no1, no2, hit, absolute) moved
              | inr relative ↦
                  rw (no1, no2, hit, relative) (flush_after _ (emit-IsBalanced kc _ s refl refl i))
            ]
          ]
        ]
      ]

      from :
          (backend : Option Backend)
          → Returns
              (IsBalanced kc)
              (elim backend [ none ↦ some s | some b ↦ handle ops b type_ detail x y now s ])
      from none = i
      from (some b) = handled b

  step-IsBalanced :
      (kc : ℕ) (e : Event X) (s : Input X)
      → kc < 256
      → IsEvent e
      → IsBalanced kc s
      → Returns (IsBalanced kc) (step ops e s)
  unfolding step layout_of
  step-IsBalanced kc (fakes type_ detail x y now) s h k i =
      fake_input-IsBalanced kc type_ detail x y now s h k i
  step-IsBalanced kc sets_devices s h k i = elim (Bool-cases (is_some s.backend)) [
    | inl there ↦ rw there i
    | inr gone ↦ rw gone (record { four = i.four; balanced = i.balanced; laid = i.laid })
  ]
  step-IsBalanced kc (sets_keymap format size) s h k i = elim (Bool-cases (is_some s.backend)) [
    | inl there ↦ rw there (
        emit-IsBalanced kc (keymap format size ∷ flush ∷ [])
          (record s { backend = some (record { keymap_set = true }) }) refl refl
          (record { four = i.four; balanced = i.balanced; laid = i.laid }))
    | inr gone ↦ rw gone i
  ]
  step-IsBalanced kc (sets_modifier_keymap none) s h k i = i
  step-IsBalanced kc (sets_modifier_keymap (some x)) s h k i = record {
    four = i.four;
    balanced = i.balanced;
    laid = i.laid;
  }
  step-IsBalanced kc (sets_geometry width height) s h k i = record {
    four = i.four;
    balanced = i.balanced;
    laid = i.laid;
  }
  step-IsBalanced kc (sets_layout []) s h k i = record {
    four = i.four;
    balanced = i.balanced;
    laid = tt;
  }
  step-IsBalanced kc (sets_layout (o ∷ os)) s h k i =
      let (l, made, same, wide, high) = layout_of_lem o os in
      let laid : IsLaid (layout_of (o ∷ os)) = rw made (o, os, made, k) in
      record { four = i.four; balanced = i.balanced; laid = laid }

  -- After any sequence of what the clients and the Wayland thread do, which never panics, each key
  -- of the 256 was sent as pressed as often as it was sent as released, and once more exactly while
  -- it is held down, if this held before, as it does at the start: a press that a client repeats is
  -- not passed on, and neither is a release of a key that is not down. The outputs of the layouts
  -- have places of 16 bits and sizes of at least a pixel.
  pub run-IsBalanced :
      (kc : ℕ) (es : List (Event X)) (s : Input X)
      → kc < 256
      → All IsEvent es
      → IsBalanced kc s
      → Returns (IsBalanced kc) (run ops es s)
  unfolding run
  run-IsBalanced kc [] s h k i = i
  run-IsBalanced kc (e ∷ es) s h k i =
      from (step ops e s) (step-IsBalanced kc e s h k.0 i) (λ t. run-IsBalanced kc es t h k.1)
    where
      from :
          (o : Option (Input X))
          → Returns (IsBalanced kc) o
          → ((t : Input X) → IsBalanced kc t → Returns (IsBalanced kc) (run ops es t))
          → Returns (IsBalanced kc) (o >>= run ops es)
      from none j later = absurd j
      from (some t) j later = later t j
