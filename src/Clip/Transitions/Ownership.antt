-- ===== src/Clip/Transitions/Ownership.antt =====
-- What each transition does to the owner of a selection, and what clients are told.
use xwlrvnc.Base.{
  ℕ, ◌≡◌, ◌⊎◌, inl, inr, refl, true, false, [], Option, none, some, is_some, arith, if◌then◌else◌,
  Option-cases,
}
use xwlrvnc.Event.Time.{server_time_ms}
use xwlrvnc.Clip.Types.{Sel, clipboard, primary, Bytes}
use xwlrvnc.Clip.State.{
  XOwner, nobody, x, SelState, Clipboard, sel_of, put_sel, enter, changed_at, stale_owner_time,
  nothing, here, value, is_wayland, x_owner, into_offer,
}
use xwlrvnc.Clip.Transitions.{
  SelectionEvent, set_selection_owner, no_effects, stale, took, publish, withdraw, displaced,
  x_took, x_released, acquired, acquisition, x_fetched, x_fetch_failed, is_owner, x_owner_gone,
}

-- A state put back is read back, and the other selection is left alone.
pub sel_of-put_sel : (sel : Sel) (s : SelState) (c : Clipboard) → sel_of sel (put_sel sel s c) ≡ s
sel_of-put_sel clipboard s c = refl
sel_of-put_sel primary s c = refl

-- Publishing touches the echoes and the publication mark alone.
pub publish_frame :
    (sel : Sel) (v : Option Bytes) (now : ℕ) (c : Clipboard)
    → ((sel_of sel (publish sel v now c)).owner ≡ (sel_of sel c).owner)
      × ((sel_of sel (publish sel v now c)).generation ≡ (sel_of sel c).generation)
      × ((sel_of sel (publish sel v now c)).last_changed ≡ (sel_of sel c).last_changed)
      × ((sel_of sel (publish sel v now c)).publishable ≡ (sel_of sel c).publishable)
unfolding publish
publish_frame clipboard v now c = ground arith
publish_frame primary v now c = ground arith

pub withdraw_frame :
    (sel : Sel) (now : ℕ) (c : Clipboard)
    → ((sel_of sel (withdraw sel now c)).owner ≡ (sel_of sel c).owner)
      × ((sel_of sel (withdraw sel now c)).generation ≡ (sel_of sel c).generation)
      × ((sel_of sel (withdraw sel now c)).last_changed ≡ (sel_of sel c).last_changed)
      × ((sel_of sel (withdraw sel now c)).publishable ≡ (sel_of sel c).publishable)
unfolding withdraw
withdraw_frame sel now c = ground (arith, publish_frame sel none now c)

-- An X client's `SetSelectionOwner` is ignored, and changes nothing, exactly if its time is after the
-- clock or before the selection's last change. Otherwise its window owns the selection from that time
-- on, with nothing to serve yet; a displaced Wayland offer is to be destroyed, a displaced X owner is
-- told exactly if it is on another connection, and no watcher is told.
pub x_took_lem :
    (sel : Sel) (window client time now : ℕ) (c : Clipboard)
    → let s = sel_of sel c in
      let ignored = stale_owner_time time (server_time_ms now c.floor) s.last_changed in
      let (d, t) = x_took sel window client time now c in
      ((ignored ≡ true) × (d ≡ c) × (t ≡ stale))
      ⊎ ((ignored ≡ false)
          × ((sel_of sel d).owner
              ≡ x (record { window = window; client = client; time = time; value = none }))
          × (value sel d ≡ nothing)
          × ((sel_of sel d).last_changed ≡ time)
          × (t
              ≡ took (record {
                destroy = into_offer s.owner;
                cleared = displaced s.owner client;
                notify = none;
                at = time;
              })))
unfolding x_took value changed_at
x_took_lem clipboard window client time now c = ground arith
x_took_lem primary window client time now c = ground arith

-- A release is ignored, and changes nothing, exactly if its time is after the clock or before the selection's last
-- change. One of a Wayland app's selection changes nothing and tells nobody. Any other leaves nobody as the owner,
-- at that time; an X owner it displaces is told, whichever client released it, and watchers are told of no owner.
pub x_released_lem :
    (sel : Sel) (time now later : ℕ) (c : Clipboard)
    → let s = sel_of sel c in
      let ignored = stale_owner_time time (server_time_ms now c.floor) s.last_changed in
      let (d, t) = x_released sel time now later c in
      ((ignored ≡ true) × (d ≡ c) × (t ≡ stale))
      ⊎ ((ignored ≡ false) × (is_wayland s.owner ≡ true) × (d ≡ c) × (t ≡ took no_effects))
      ⊎ ((ignored ≡ false)
          × (is_wayland s.owner ≡ false)
          × ((sel_of sel d).owner ≡ nobody)
          × (value sel d ≡ nothing)
          × ((sel_of sel d).last_changed ≡ time)
          × (t
              ≡ took (record {
                destroy = [];
                cleared = x_owner s.owner;
                notify = some (record {
                  subtype = set_selection_owner;
                  owner = 0;
                  timestamp = server_time_ms later c.floor;
                  selection_timestamp = time;
                });
                at = time;
              })))
unfolding x_released value changed_at
x_released_lem clipboard time now later c = ground (
  arith,
  withdraw_frame clipboard later
      (changed_at clipboard time (put_sel clipboard (enter nobody c.clip) c)),
)
x_released_lem primary time now later c = ground (
  arith,
  withdraw_frame primary later (changed_at primary time (put_sel primary (enter nobody c.prim) c)),
)

-- The state with the value of a fetch recorded.
abbrev pub with_value : Sel → XOwner → Bytes → Clipboard → Clipboard
with_value sel o bytes c =
    put_sel sel (record (sel_of sel c) { owner = x (record o { value = some bytes }) }) c

pub x_fetched_cases :
    (sel : Sel) (window time : ℕ) (bytes : Bytes) (now later : ℕ) (c : Clipboard)
    → ((x_fetched sel window time bytes now later c).0 ≡ c)
      ⊎ ((o : XOwner) × ((sel_of sel c).owner ≡ x o)
          × ((x_fetched sel window time bytes now later c).0
              ≡ publish sel (some bytes) now (with_value sel o bytes c)))
unfolding x_fetched
x_fetched_cases sel window time bytes now later c =
    elim (Option-cases (acquisition (sel_of sel c).owner window time)) [
      | inl e ↦ inl (ground arith)
      | inr (o, e) ↦ inr (o, ground arith, ground arith)
    ]

-- A fetched value of an acquisition that is no longer the current one is dropped: nothing changes and
-- nobody is told. A current one is served from then on, by the same owner and under the same generation,
-- and watchers are told of the owner's window and time.
pub x_fetched_lem :
    (sel : Sel) (window time : ℕ) (bytes : Bytes) (now later : ℕ) (c : Clipboard)
    → let (d, fx) = x_fetched sel window time bytes now later c in
      ((acquisition (sel_of sel c).owner window time ≡ none) × (d ≡ c) × (fx ≡ none))
      ⊎ ((o : XOwner) × ((sel_of sel c).owner ≡ x o)
          × (o.window ≡ window)
          × (o.time ≡ time)
          × (value sel d ≡ here bytes)
          × ((sel_of sel d).owner ≡ x (record o { value = some bytes }))
          × ((sel_of sel d).generation ≡ (sel_of sel c).generation)
          × (fx ≡ some (acquired window time (server_time_ms later c.floor))))
unfolding x_fetched value
x_fetched_lem sel window time bytes now later c =
    elim (Option-cases (acquisition (sel_of sel c).owner window time)) [
      | inl e ↦ inl (e, ground arith, ground arith)
      | inr (o, e) ↦
          let s = record (sel_of sel c) { owner = x (record o { value = some bytes }) } in
          let put : sel_of sel (put_sel sel s c) ≡ s = sel_of-put_sel sel s c in
          let framed = publish_frame sel (some bytes) now (put_sel sel s c) in
          inr (
            o,
            ground arith,
            ground arith,
            ground arith,
            ground (arith, framed, put),
            ground (arith, framed, put),
            ground (arith, framed, put),
            ground arith,
          )
    ]

-- A failed fetch keeps the owner, whether it is still the one that was asked or not; watchers hear of
-- the acquisition exactly if it is the current one.
pub x_fetch_failed_lem :
    (sel : Sel) (window time now later : ℕ) (c : Clipboard)
    → let (d, fx) = x_fetch_failed sel window time now later c in
      ((sel_of sel d).owner ≡ (sel_of sel c).owner)
      × ((sel_of sel d).generation ≡ (sel_of sel c).generation)
      × (fx ≡ (
          if is_some (acquisition (sel_of sel c).owner window time)
          then some (acquired window time (server_time_ms later c.floor))
          else none))
unfolding x_fetch_failed
x_fetch_failed_lem sel window time now later c = ground (arith, withdraw_frame sel now c)

-- A client that goes away loses the selection exactly if it owns it (on the window, if one is given);
-- nobody owns it then, the time of its last change stays, and watchers are told with that time. Otherwise
-- nothing changes and nobody is told.
pub x_owner_gone_lem :
    (sel : Sel) (client : ℕ) (window : Option ℕ) (subtype : SelectionEvent) (now later : ℕ)
    (c : Clipboard)
    → let (d, fx) = x_owner_gone sel client window subtype now later c in
      ((is_owner (sel_of sel c).owner client window ≡ false) × (d ≡ c) × (fx ≡ none))
      ⊎ ((is_owner (sel_of sel c).owner client window ≡ true)
          × ((sel_of sel d).owner ≡ nobody)
          × ((sel_of sel d).last_changed ≡ (sel_of sel c).last_changed)
          × (fx
              ≡ some (record no_effects {
                at = (sel_of sel c).last_changed;
                notify = some (record {
                  subtype = subtype;
                  owner = 0;
                  timestamp = server_time_ms later c.floor;
                  selection_timestamp = (sel_of sel c).last_changed;
                });
              })))
unfolding x_owner_gone
x_owner_gone_lem sel client window subtype now later c = ground (
  arith,
  withdraw_frame sel now (put_sel sel (enter nobody (sel_of sel c)) c),
  sel_of-put_sel sel (enter nobody (sel_of sel c)) c,
)
