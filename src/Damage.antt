-- ===== src/Damage.antt =====
-- bridge/damage.rs: what clients are told of changes to the screen. `dead` tells which clients are dead
-- at the time of a call. Sending an event is adding it to those returned; its sequence number and
-- timestamp, which the client and the clock give, are left out.
pub mod Repair
use xwlrvnc.Base.{
  ℕ, ◌+◌, ◌/◌, ◌%◌, Bool, true, false, not, ◌&&◌, ◌==◌, if◌then◌else◌, List, [], ◌∷◌, ◌++◌, Option,
  none, some, is_some, is_empty, find, any, retain, update_first,
}
use xwlrvnc.Base.Int.{pos, eqb_ℤ}
use xwlrvnc.Util.Boxes.{Rectangle, bbox, has_area}

abbrev pub raw : ℕ
raw = 0

abbrev pub delta : ℕ
delta = 1

abbrev pub bounding_box : ℕ
bounding_box = 2

abbrev pub non_empty : ℕ
non_empty = 3

-- One client's handle. A client is the identity of its `Arc`.
pub record DamageObj : Type 0 where
  pub client : ℕ
  pub id : ℕ
  pub drawable : ℕ
  pub level : ℕ
  pub region : List Rectangle

pub record NotifyEvent : Type 0 where
  pub client : ℕ
  pub level : ℕ
  pub drawable : ℕ
  pub damage : ℕ
  pub area : Rectangle
  pub geometry : Rectangle

abbrev pub is_obj : ℕ → ℕ → DamageObj → Bool
is_obj client id o = o.client == client && o.id == id

abbrev pub create : ℕ → ℕ → ℕ → ℕ → List DamageObj → List DamageObj
create client id drawable level objs =
    objs
    ++ (record { client = client; id = id; drawable = drawable; level = level; region = [] } ∷ [])

abbrev pub active : (ℕ → Bool) → List DamageObj → Bool
active dead objs = any (λ o. not (dead o.client)) objs

abbrev pub destroy : ℕ → ℕ → List DamageObj → List DamageObj
destroy client id objs = retain (λ o. not (is_obj client id o)) objs

abbrev pub taken_from : Option DamageObj → List Rectangle
taken_from none = []
taken_from (some o) = if o.level == raw then [] else o.region

-- The region that is asked for is not looked at.
unfoldable pub subtract : ℕ → ℕ → List DamageObj → List DamageObj × List Rectangle
subtract client id objs = (
  update_first (is_obj client id) (λ o. if o.level == raw then o else record o { region = [] })
      objs,
  taken_from (find (is_obj client id) objs),
)

abbrev pub whole : ℕ × ℕ → Rectangle
whole (width, height) = record { x = pos 0; y = pos 0; width = width; height = height }

abbrev pub event : DamageObj → ℕ → Rectangle → ℕ × ℕ → NotifyEvent
event o level area geom = record {
  client = o.client;
  level = level;
  drawable = o.drawable;
  damage = o.id;
  area = area;
  geometry = whole geom;
}

-- `level | MORE`.
abbrev pub with_more : ℕ → ℕ
with_more level = if level / 128 % 2 == 1 then level else level + 128

unfoldable pub notify : DamageObj → List Rectangle → ℕ × ℕ → List NotifyEvent
notify o [] geom = []
notify o (area ∷ boxes) geom =
    event o (if is_empty boxes then o.level else with_more o.level) area geom ∷ notify o boxes geom

unfoldable pub notify_non_empty : DamageObj → ℕ × ℕ → List NotifyEvent
notify_non_empty o geom = event o o.level (whole geom) geom ∷ []

abbrev pub same_box : Option Rectangle → Option Rectangle → Bool
same_box none none = true
same_box (some a) (some b) =
    eqb_ℤ a.x b.x && eqb_ℤ a.y b.y && a.width == b.width && a.height == b.height
same_box _ _ = false

-- The object with the new rectangles added.
abbrev pub extended : DamageObj → List Rectangle → DamageObj
extended o new = record o { region = o.region ++ new }

abbrev pub notify_box : DamageObj → Option Rectangle → ℕ × ℕ → List NotifyEvent
notify_box o none geom = []
notify_box o (some now) geom = notify o (now ∷ []) geom

-- One object's turn in the loop.
unfoldable pub feed : List Rectangle → ℕ × ℕ → DamageObj → DamageObj × List NotifyEvent
feed new geom o =
    let grown = extended o new in
    if o.level == raw
    then (o, notify o new geom)
    else if o.level == delta
    then (grown, notify grown new geom)
    else if o.level == bounding_box
    then (
      grown,
      if same_box (bbox o.region) (bbox grown.region)
          then []
          else notify_box grown (bbox grown.region) geom,
    )
    else if o.level == non_empty
    then (
      grown,
      if is_empty o.region && not (is_empty grown.region) then notify_non_empty grown geom else [],
    )
    else (grown, [])

abbrev pub feed_all : List Rectangle → ℕ × ℕ → List DamageObj → List DamageObj × List NotifyEvent
feed_all new geom [] = ([], [])
feed_all new geom (o ∷ os) =
    let (p, events) = feed new geom o in
    let (ps, more) = feed_all new geom os in (p ∷ ps, events ++ more)

unfoldable pub add_damage :
    (ℕ → Bool) → List Rectangle → ℕ × ℕ → List DamageObj → List DamageObj × List NotifyEvent
add_damage dead new geom objs =
    let kept = retain has_area new in
    if is_empty kept
    then (objs, [])
    else feed_all kept geom (retain (λ o. not (dead o.client)) objs)
