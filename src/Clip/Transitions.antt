-- ===== src/Clip/Transitions.antt =====
-- bridge/clipboard.rs: the transitions, the only things that change who owns a selection. `now` is a
-- method's first reading of the clock and `later` its next one, in milliseconds since the start. A
-- method that takes the lock more than once is one step here.
pub mod Announced
pub mod Calls
pub mod Echoes
pub mod Generation
pub mod Ownership
pub mod Readers
use xwlrvnc.Base.{
  ℕ, Bool, true, false, not, ◌&&◌, ◌==◌, if◌then◌else◌, leb, List, [], ◌∷◌, ◌++◌, Option, none,
  some, is_some, rest, length,
}
use xwlrvnc.Event.Time.{server_time_ms}
use xwlrvnc.Clip.Types.{Sel, DataOffer, Bytes, Job}
use xwlrvnc.Clip.Jobs.{post}
use xwlrvnc.Clip.State.{
  XOwner, owned_by, is_acquisition, Owner, nobody, x, announced_owner, into_offer, x_owner, is_x,
  is_nobody, is_wayland, Echo, source, withdrawn, max_echoes, SelState, Clipboard, sel_of, put_sel,
  enter, take_echo, next_timestamp, changed_at, stale_owner_time, owner_window_id,
}
use Prim.Native.String.{String}

pub data SelectionEvent : Type 0 where
  set_selection_owner selection_window_destroy selection_client_close : SelectionEvent

pub record Notify : Type 0 where
  pub subtype : SelectionEvent
  pub owner : ℕ
  pub timestamp : ℕ
  pub selection_timestamp : ℕ

-- What a transition leaves its caller to do.
pub record Effects : Type 0 where
  pub destroy : List DataOffer
  pub cleared : Option XOwner
  pub notify : Option Notify
  pub at : ℕ

abbrev pub no_effects : Effects
no_effects = record { destroy = []; cleared = none; notify = none; at = 0 }

pub data Take : Type 0 where
  stale : Take
  took : Effects → Take

abbrev pub offers : Option DataOffer → List DataOffer
offers none = []
offers (some offer) = offer ∷ []

abbrev pub echo_of : Option Bytes → Echo
echo_of (some data') = source
echo_of none = withdrawn

abbrev pub same_echo : Echo → Echo → Bool
same_echo source source = true
same_echo withdrawn withdrawn = true
same_echo _ _ = false

-- `if echoes.back() == Some(&echo) { echoes.pop_back() }`.
abbrev pub pop_back_if : Echo → List Echo → List Echo
pop_back_if echo [] = []
pop_back_if echo (e ∷ []) = if same_echo e echo then [] else e ∷ []
pop_back_if echo (e ∷ d ∷ es) = e ∷ pop_back_if echo (d ∷ es)

-- The record of the announcement that a publication will cause, the oldest making room.
abbrev pub owed : Option Bytes → SelState → SelState
owed value s =
    let kept = if leb max_echoes (length s.echoes) then rest s.echoes else s.echoes in
    record s { echoes = kept ++ (echo_of value ∷ []); published = is_some value }

unfoldable pub publish : Sel → Option Bytes → ℕ → Clipboard → Clipboard
publish sel value now c =
    if not (sel_of sel c).publishable
    then c
    else (let s = owed value (sel_of sel c) in
        let (jobs, posted) = post now (Job.publish sel value) c.jobs in
        let d = put_sel sel s (record c { jobs = jobs }) in
        if posted
        then d
        else put_sel sel
            (record s { echoes = pop_back_if (echo_of value) s.echoes; published = false }) d)

unfoldable pub withdraw : Sel → ℕ → Clipboard → Clipboard
withdraw sel now c = if (sel_of sel c).published then publish sel none now c else c

-- A change of owner that the compositor announced.
unfoldable pub supersede :
    Sel → Bool → Option DataOffer → List String → ℕ → Clipboard → Clipboard × Effects
supersede sel echo offer mimes now c =
    let (d, at) = next_timestamp now c in
    let s = sel_of sel d in
    let t = record s { last_changed = at; published = if echo then s.published else false } in
    (
      put_sel sel (enter (announced_owner offer mimes) t) d,
      record {
        destroy = into_offer s.owner;
        cleared = x_owner s.owner;
        notify = some (record {
          subtype = set_selection_owner;
          owner = if is_some offer then owner_window_id else 0;
          timestamp = at;
          selection_timestamp = at;
        });
        at = at;
      },
    )

unfoldable pub wayland_announced :
    Sel → Option DataOffer → List String → ℕ → Clipboard → Clipboard × Effects
wayland_announced sel offer mimes now c =
    let (s, echo) = take_echo (is_some offer) mimes (sel_of sel c) in
    let d = put_sel sel s c in
    if echo && is_x s.owner
    then (d, record no_effects { destroy = offers offer })
    else if echo && (not (is_some offer) && is_nobody s.owner)
    then (d, no_effects)
    else supersede sel echo offer mimes now d

-- The owner that is owed a `SelectionClear`: an X owner on another connection.
abbrev pub displaced : Owner → ℕ → Option XOwner
displaced (x o) client = if owned_by o client then none else some o
displaced _ client = none

unfoldable pub x_took : Sel → ℕ → ℕ → ℕ → ℕ → Clipboard → Clipboard × Take
x_took sel window client time now c =
    let s = sel_of sel c in
    if stale_owner_time time (server_time_ms now c.floor) s.last_changed
    then (c, stale)
    else (let owner = x (record { window = window; client = client; time = time; value = none }) in
        (
          changed_at sel time (put_sel sel (enter owner s) c),
          took (record {
            destroy = into_offer s.owner;
            cleared = displaced s.owner client;
            notify = none;
            at = time;
          }),
        ))

-- `released` is the state with the owner, if there is one, moved out.
unfoldable pub x_released : Sel → ℕ → ℕ → ℕ → Clipboard → Clipboard × Take
x_released sel time now later c =
    let s = sel_of sel c in
    if stale_owner_time time (server_time_ms now c.floor) s.last_changed
    then (c, stale)
    else if is_wayland s.owner
    then (c, took no_effects)
    else (let released = if is_x s.owner then enter nobody s else s in
        let d = changed_at sel time (put_sel sel released c) in
        let e = if is_x s.owner then withdraw sel later d else d in
        (
          e,
          took (record {
            destroy = [];
            cleared = x_owner s.owner;
            notify = some (record {
              subtype = set_selection_owner;
              owner = 0;
              timestamp = server_time_ms later c.floor;
              selection_timestamp = time;
            });
            at = time;
          }),
        ))

-- What watchers are owed for an X client's acquisition.
abbrev pub acquired : ℕ → ℕ → ℕ → Effects
acquired window time stamp = record no_effects {
  at = time;
  notify = some (record {
    subtype = set_selection_owner;
    owner = window;
    timestamp = stamp;
    selection_timestamp = time;
  });
}

-- The X owner, if it is the acquisition of `window` at `time`.
abbrev pub acquisition : Owner → ℕ → ℕ → Option XOwner
acquisition (x o) window time = if is_acquisition o window time then some o else none
acquisition _ window time = none

unfoldable pub x_fetched : Sel → ℕ → ℕ → Bytes → ℕ → ℕ → Clipboard → Clipboard × Option Effects
x_fetched sel window time bytes now later c = elim (acquisition (sel_of sel c).owner window time) [
  | none ↦ (c, none)
  | some o ↦
      let s = record (sel_of sel c) { owner = x (record o { value = some bytes }) } in
      (
        publish sel (some bytes) now (put_sel sel s c),
        some (acquired window time (server_time_ms later c.floor)),
      )
]

unfoldable pub x_fetch_failed : Sel → ℕ → ℕ → ℕ → ℕ → Clipboard → Clipboard × Option Effects
x_fetch_failed sel window time now later c =
    if is_some (acquisition (sel_of sel c).owner window time)
    then (withdraw sel now c, some (acquired window time (server_time_ms later c.floor)))
    else (c, none)

-- Whether the owner is this client's, on the window if one is given.
abbrev pub is_owner : Owner → ℕ → Option ℕ → Bool
is_owner (x o) client none = owned_by o client
is_owner (x o) client (some w) = owned_by o client && w == o.window
is_owner _ client window = false

unfoldable pub x_owner_gone :
    Sel → ℕ → Option ℕ → SelectionEvent → ℕ → ℕ → Clipboard → Clipboard × Option Effects
x_owner_gone sel client window subtype now later c =
    let s = sel_of sel c in
    if is_owner s.owner client window
    then (
      withdraw sel now (put_sel sel (enter nobody s) c),
      some (record no_effects {
        at = s.last_changed;
        notify = some (record {
          subtype = subtype;
          owner = 0;
          timestamp = server_time_ms later c.floor;
          selection_timestamp = s.last_changed;
        });
      }),
    )
    else (c, none)
