-- ===== src/Event/Sink/FanOut.antt =====
-- Who is told what by the four fan-outs, and what is left of the others.
use Prim.{⊥}
use xwlrvnc.Base.{
  ℕ, ◌+◌, ◌%◌, ◌≡◌, refl, ap, ◌∙◌, inl, inr, some, List, [], ◌∷◌, ◌++◌, arith, Bool-cases, All,
  retain, map, if◌then◌else◌, ◌==◌, ◌&&◌, Option,
}
use xwlrvnc.Base.Word.{u16_mod}
use xwlrvnc.X11.Randr.{mm}
use xwlrvnc.Event.Sink.{
  Notice, screen_change, configure, cursor_notify, selection_notify, mapping, Registration, Sink,
  cursor_changed, cursor_notices, each_live, is_live, kept, keyboard_mapping_changed,
  mapping_notices, screen_changed, screen_notices, selection_changed, selection_notices, send_all,
}
use xwlrvnc.Event.Sink.Frames.{Took, frames, send_all_lem, told_seq}
use xwlrvnc.Event.Outbox.Bounds.{IsValid}
use xwlrvnc.Event.Outbox.{Client, SelReg, lets_through, selections_for}

-- The events each client is due. A change of the screen is told to a RandR window, if the client named one,
-- and then to the root window, if the client listens to its structure.
abbrev pub screen_due : ℕ → ℕ → ℕ → ℕ → ℕ → Client → List Notice
screen_due first_event width height timestamp config_timestamp c =
    (if c.randr_window == 0
      then []
      else (screen_change first_event c.seq timestamp config_timestamp c.randr_window width height
            (mm width % u16_mod) (mm height % u16_mod)
          ∷ []))
    ++ (if c.root_structure then configure c.seq width height ∷ [] else [])

abbrev pub cursor_due : ℕ → ℕ → ℕ → Client → List Notice
cursor_due first_event serial timestamp c =
    if c.cursor_window == 0
    then []
    else cursor_notify (first_event + 1) c.seq c.cursor_window serial timestamp ∷ []

-- One for each window registered for the selection with a mask that lets the kind of change through.
abbrev pub selection_due : ℕ → ℕ → ℕ → ℕ → ℕ → ℕ → Client → List Notice
selection_due first_event atom subtype owner timestamp selection_timestamp c =
    map
      (λ r.
        selection_notify first_event subtype c.seq r.window owner r.atom timestamp
          selection_timestamp)
      (retain (λ r. r.atom == atom && lets_through r.mask subtype) c.selections)

-- The keyboard's mapping, then the modifiers'.
abbrev pub mapping_due : ℕ → ℕ → Client → List Notice
mapping_due first_keycode count c =
    map (λ request. mapping c.seq request first_keycode count) (1 ∷ 0 ∷ [])

selection_notices_from :
    (first_event subtype owner timestamp selection_timestamp : ℕ) (c : Client) (rs : List SelReg)
    → selection_notices first_event subtype owner timestamp selection_timestamp c
        (map (λ r. (r.window, r.atom)) rs)
      ≡ map
          (λ r.
            selection_notify first_event subtype c.seq r.window owner r.atom timestamp
              selection_timestamp)
          rs
selection_notices_from first_event subtype owner timestamp selection_timestamp c [] = refl
selection_notices_from first_event subtype owner timestamp selection_timestamp c (r ∷ rs) =
    ap
      (λ ns.
        selection_notify first_event subtype c.seq r.window owner r.atom timestamp
          selection_timestamp
        ∷ ns)
      (selection_notices_from first_event subtype owner timestamp selection_timestamp c rs)

screen_notices_lem :
    (first_event width height timestamp config_timestamp : ℕ) (c : Client)
    → screen_notices first_event width height timestamp config_timestamp c
      ≡ screen_due first_event width height timestamp config_timestamp c
screen_notices_lem first_event width height timestamp config_timestamp c = ground arith

selection_notices_lem :
    (first_event atom subtype owner timestamp selection_timestamp : ℕ) (c : Client)
    → selection_notices first_event subtype owner timestamp selection_timestamp c
        (selections_for c atom subtype)
      ≡ selection_due first_event atom subtype owner timestamp selection_timestamp c
unfolding selections_for
selection_notices_lem first_event atom subtype owner timestamp selection_timestamp c =
    selection_notices_from first_event subtype owner timestamp selection_timestamp c
      (retain (λ r. r.atom == atom && lets_through r.mask subtype) c.selections)

-- The registrations after a fan-out, one for each of those that were live: each client's outbox took the
-- frames of the events it was due, in order.
abbrev pub Told : (Notice → List ℕ) → (Client → List Notice) → Sink → Sink → Type 0
Told serialize due [] [] = Unit
Told serialize due (r ∷ rs) (q ∷ qs) =
    (q.held ≡ r.held)
    × Took (frames serialize (told_seq r.client) (due r.client)) r.client q.client
    × Told serialize due rs qs
Told serialize due _ _ = ⊥

-- The outcome of a fan-out from a sink: it did not panic, and each live registration was told its own events.
abbrev pub Reaches : (Notice → List ℕ) → (Client → List Notice) → Sink → Option Sink → Type 0
Reaches serialize due sink result =
    (after : Sink) × (result ≡ some after) × Told serialize due (retain is_live sink) after

module _ (serialize : Notice → List ℕ) where
  each_live_lem :
      (notices due : Client → List Notice) (same : (c : Client) → notices c ≡ due c) (sink : Sink)
      → All (λ (r : Registration). IsValid r.client) sink
      → Reaches serialize due sink (each_live (λ c. send_all serialize (notices c) c) sink)
  unfolding each_live
  each_live_lem notices due same [] v = ([], refl, tt)
  each_live_lem notices due same (r ∷ rs) v =
      let (after, e, told) = each_live_lem notices due same rs v.1 in
      let c = r.client in
      let (d, f, took) = send_all_lem serialize (notices c) c v.0 in
      let took' : Took (frames serialize (told_seq c) (due c)) c d = rw (← same c) took in
      elim (Bool-cases (is_live r)) [
        | inr gone ↦
            (after, ap (kept r (send_all serialize (notices c) c)) e ∙ rw gone refl, rw gone told)
        | inl there ↦
            (record r { client = d } ∷ after, rw (there, f, e) refl, rw there (refl, took', told))
      ]

  -- If the outboxes are valid, each of the four fan-outs tells every client that is connected the events it
  -- is due and no others, in the order the clients registered, drops the other registrations, and
  -- never panics, whatever x11rb makes of an event. The outbox stays valid; the events stand behind what was queued, each
  -- padded to 32 bytes and stamped with the client's sequence number, held up at the last one stamped, unless the
  -- outbox was closed or their bytes are too many for it, which closes it.
  pub fan_outs_lem :
      (randr_event xfixes_event width height timestamp config_timestamp serial atom subtype : ℕ)
      (owner selection_timestamp first_keycode count : ℕ) (sink : Sink)
      → All (λ (r : Registration). IsValid r.client) sink
      → Reaches serialize
          (screen_due randr_event width height timestamp config_timestamp)
          sink
          (screen_changed serialize randr_event width height timestamp config_timestamp sink)
        × Reaches serialize
            (cursor_due xfixes_event serial timestamp)
            sink
            (cursor_changed serialize xfixes_event serial timestamp sink)
        × Reaches serialize
            (selection_due xfixes_event atom subtype owner timestamp selection_timestamp)
            sink
            (selection_changed serialize xfixes_event atom subtype owner timestamp
              selection_timestamp sink)
        × Reaches serialize
            (mapping_due first_keycode count)
            sink
            (keyboard_mapping_changed serialize first_keycode count sink)
  unfolding screen_changed cursor_changed selection_changed keyboard_mapping_changed
  fan_outs_lem randr_event xfixes_event width height timestamp config_timestamp serial atom subtype
        owner selection_timestamp first_keycode count sink v =
      (
        each_live_lem (screen_notices randr_event width height timestamp config_timestamp)
            (screen_due randr_event width height timestamp config_timestamp)
            (screen_notices_lem randr_event width height timestamp config_timestamp) sink v,
        each_live_lem (cursor_notices xfixes_event serial timestamp)
            (cursor_due xfixes_event serial timestamp) (λ c. refl) sink v,
        each_live_lem
            (λ c.
              selection_notices xfixes_event subtype owner timestamp selection_timestamp c
                (selections_for c atom subtype))
            (selection_due xfixes_event atom subtype owner timestamp selection_timestamp)
            (selection_notices_lem xfixes_event atom subtype owner timestamp selection_timestamp)
            sink v,
        each_live_lem (mapping_notices first_keycode count) (mapping_due first_keycode count)
            (λ c. refl) sink v,
      )
