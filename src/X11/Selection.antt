-- ===== src/X11/Selection.antt =====
-- bridge/x11/selection.rs: one connection's clipboard state machine. `Instant` is a number of
-- milliseconds, `now` where the code reads the clock; `server_now` is `server_time_ms()`. A `HashMap` is an association list, whose order stands for the open order of iteration.
pub mod Fetches
pub mod Chunks
pub mod Deadlines
use xwlrvnc.Base.{
  ℕ, ◌+◌, ◌-◌, ◌*◌, ◌^◌, min, Bool, true, false, not, ◌&&◌, ◌||◌, ◌==◌, if◌then◌else◌, leb, ltb,
  List, [], ◌∷◌, ◌++◌, map, Option, none, some, length, retain, is_some, is_empty,
}
use xwlrvnc.Base.Assoc
use xwlrvnc.Clip.Types.{Sel, Bytes}
use xwlrvnc.Clip.State.{max_selection_bytes, stale_owner_time}

-- 10 s
abbrev pub fetch_timeout : ℕ
fetch_timeout = 10000

abbrev pub max_fetches : ℕ
max_fetches = 32

-- `bridge::x11::SELECTION_FETCH_WINDOW` is a parameter of `incr_chunk`.
pub record Owner : Type 0 where
  pub window : ℕ
  pub last_changed : ℕ

pub record Fetch : Type 0 where
  pub kind : Sel
  pub selection : ℕ
  pub property : ℕ
  pub owner : ℕ
  pub time : ℕ
  pub since : ℕ

pub record IncrRecv : Type 0 where
  pub fetch : Fetch
  pub received : Bytes
  pub progress_at : ℕ

pub record Selection : Type 0 where
  pub owners : List (ℕ × Owner)
  pub fetches : List Fetch
  pub incr : List (ℕ × IncrRecv)

unfoldable pub default : Selection
default = record { owners = []; fetches = []; incr = [] }

pub data IncrStep : Type 0 where
  more : ℕ → IncrStep
  done : Fetch → Bytes → IncrStep
  too_big : Fetch → IncrStep

abbrev pub last_change : Option Owner → ℕ
last_change none = 0
last_change (some o) = o.last_changed

unfoldable pub set_owner : ℕ → ℕ → ℕ → ℕ → Selection → Selection × Bool
set_owner selection window time server_now s =
    if stale_owner_time time server_now (last_change (Assoc.get selection s.owners))
    then (s, false)
    else (
      record s {
        owners = Assoc.insert selection (record { window = window; last_changed = time }) s.owners;
      },
      true,
    )

abbrev pub owning : Option Owner → Option ℕ
owning none = none
owning (some o) = if o.window == 0 then none else some o.window

unfoldable pub owner : ℕ → Selection → Option ℕ
owner selection s = owning (Assoc.get selection s.owners)

-- The owners left, and the atoms reverted with their last change.
unfoldable pub revert : ℕ → List (ℕ × Owner) → List (ℕ × Owner) × List (ℕ × ℕ)
revert window [] = ([], [])
revert window ((atom, o) ∷ os) =
    let (kept, gone) = revert window os in
    if o.window == window
    then ((atom, record o { window = 0 }) ∷ kept, (atom, o.last_changed) ∷ gone)
    else ((atom, o) ∷ kept, gone)

unfoldable pub forget_window : ℕ → Selection → Selection × List (ℕ × ℕ)
forget_window window s =
    let (kept, gone) = revert window s.owners in (record s { owners = kept }, gone)

abbrev pub fetch_of : Option IncrRecv → List Fetch
fetch_of none = []
fetch_of (some i) = i.fetch ∷ []

-- `while self.fetches.len() >= MAX_FETCHES { displaced.push(self.fetches.remove(0)) }`: what is
-- pushed, and what stays.
unfoldable pub overflow : List Fetch → List Fetch × List Fetch
overflow [] = ([], [])
overflow (f ∷ fs) =
    let (pushed, kept) = overflow fs in
    if leb max_fetches (length (f ∷ fs)) then (f ∷ pushed, kept) else ([], f ∷ fs)

unfoldable pub begin_fetch : Fetch → Selection → Selection × List Fetch
begin_fetch fetch s =
    let property = fetch.property in
    let same = retain (λ f. f.property == property) s.fetches in
    let (pushed, kept) = overflow (retain (λ f. not (f.property == property)) s.fetches) in
    (
      record s { incr = Assoc.remove property s.incr; fetches = kept ++ (fetch ∷ []) },
      fetch_of (Assoc.get property s.incr) ++ (same ++ pushed),
    )

abbrev pub timed_out : ℕ → ℕ → Bool
timed_out now since = leb fetch_timeout (now - since)

unfoldable pub expired : ℕ → Selection → Selection × List Fetch
expired now s =
    let late = λ (e : ℕ × IncrRecv). timed_out now e.1.progress_at in
    (
      record s {
        fetches = retain (λ f. not (timed_out now f.since)) s.fetches;
        incr = retain (λ e. not (late e)) s.incr;
      },
      retain (λ f. timed_out now f.since) s.fetches
          ++ map (λ (e : ℕ × IncrRecv). e.1.fetch) (retain late s.incr),
    )

-- `Iterator::min`.
abbrev pub minimum : List ℕ → Option ℕ
minimum [] = none
minimum (t ∷ ts) = elim (minimum ts) [ none ↦ some t | some u ↦ some (min t u) ]

abbrev pub starts : Selection → List ℕ
starts s =
    map (λ (f : Fetch). f.since) s.fetches ++ map (λ (e : ℕ × IncrRecv). e.1.progress_at) s.incr

unfoldable pub next_deadline : Selection → Option ℕ
next_deadline s = elim (minimum (starts s)) [ none ↦ none | some t ↦ some (t + fetch_timeout) ]

abbrev pub answers : ℕ → ℕ → Fetch → Bool
answers selection property f = f.selection == selection && (property == 0 || f.property == property)

abbrev pub behind : Fetch → Option (Fetch × List Fetch) → Option (Fetch × List Fetch)
behind f none = none
behind f (some (g, gs)) = some (g, f ∷ gs)

-- The first that answers, and the others.
unfoldable pub take_first : (Fetch → Bool) → List Fetch → Option (Fetch × List Fetch)
take_first p [] = none
take_first p (f ∷ fs) =
    let later = behind f (take_first p fs) in if p f then some (f, fs) else later

unfoldable pub take_fetch : ℕ → ℕ → Selection → Option (Fetch × Selection)
take_fetch selection property s = elim (take_first (answers selection property) s.fetches) [
  | none ↦ none
  | some (f, fs) ↦ some (f, record s { fetches = fs })
]

unfoldable pub begin_incr : Fetch → ℕ → Selection → Selection
begin_incr fetch now s = record s {
  incr =
      Assoc.insert fetch.property (record { fetch = fetch; received = []; progress_at = now })
        s.incr;
}

unfoldable pub incr_chunk : ℕ → ℕ → ℕ → Selection → Bool
incr_chunk fetch_window window property s =
    window == fetch_window && is_some (Assoc.get property s.incr)

-- `none` is the panic of `expect`, without an active receive. `saturating_add` on lengths is `+`: two
-- buffers in memory cannot pass the range of `usize`.
unfoldable pub incr_push : ℕ → Bytes → ℕ → Selection → Option (Selection × IncrStep)
incr_push property chunk now s = elim (Assoc.get property s.incr) [
  | none ↦ none
  | some i ↦
      if is_empty chunk
      then some (record s { incr = Assoc.remove property s.incr }, done i.fetch i.received)
      else if ltb max_selection_bytes (length i.received + length chunk)
      then some (record s { incr = Assoc.remove property s.incr }, too_big i.fetch)
      else some (
        record s {
          incr =
              Assoc.insert property (record i { received = i.received ++ chunk; progress_at = now })
                s.incr;
        },
        more property,
      )
]
