-- ===== src/Dynres.antt =====
-- bridge/dynres.rs: resolution changes that an X client asks for, handed to the Wayland thread. Each
-- function is what one thread does between taking the lock and releasing it, by returning or by waiting on the
-- condition variable, so any interleaving is a list of turns. Times are milliseconds. `wake` counts the
-- writes to the eventfd.
pub mod Handover
use Prim.Native.String.{String}
use xwlrvnc.Base.{
  ℕ, suc, ◌+◌, ◌%◌, Bool, true, false, ◌||◌, ◌==◌, if◌then◌else◌, leb, List, [], ◌∷◌, Option, none,
  some, is_some,
}
use xwlrvnc.Base.Word.{u64_mod}

pub record ModeRequest : Type 0 where
  pub id : ℕ
  pub wl_name : ℕ
  pub width : ℕ
  pub height : ℕ

-- `Result<(), String>`.
pub data Outcome : Type 0 where
  ok : Outcome
  err : String → Outcome

pub record DynRes : Type 0 where
  pub next_id : ℕ
  pub queued : Option ModeRequest
  pub in_flight : Option ℕ
  pub done : Option (ℕ × Outcome)
  pub wake : ℕ
  pub available : Bool

unfoldable pub default : DynRes
default = record {
  next_id = 0;
  queued = none;
  in_flight = none;
  done = none;
  wake = 0;
  available = false;
}

abbrev pub set_available : Bool → DynRes → DynRes
set_available available d = record d { available = available }

-- Whether the first loop of `change_mode` has to wait.
abbrev pub busy : DynRes → Bool
busy d = is_some d.queued || is_some d.in_flight

pub data Entry : Type 0 where
  blocked : Entry
  refused : String → Entry
  parked : ℕ → Entry

-- `change_mode` from its entry, or from a wake-up in its first loop, up to its second loop.
unfoldable pub enter : ℕ → ℕ → ℕ → ℕ → ℕ → DynRes → DynRes × Entry
enter wl_name width height now deadline d =
    let id = (d.next_id + 1) % u64_mod in
    if busy d
    then (
      d,
      if leb deadline now
          then refused "another resolution change is still in progress"
          else blocked,
    )
    else (
      record d {
        next_id = id;
        queued = some (record { id = id; wl_name = wl_name; width = width; height = height });
        done = none;
        wake = suc d.wake;
      },
      parked id,
    )

abbrev pub outcome_of : ℕ → Option (ℕ × Outcome) → Option Outcome
outcome_of id none = none
outcome_of id (some (done_id, result)) = if done_id == id then some result else none

abbrev pub is_request : ℕ → Option ModeRequest → Bool
is_request id none = false
is_request id (some r) = r.id == id

abbrev pub timeout : Outcome
timeout = err "the compositor did not answer in time"

-- One round of the second loop: `none` waits again.
unfoldable pub collect : ℕ → ℕ → ℕ → DynRes → DynRes × Option Outcome
collect id now deadline d = elim (outcome_of id d.done) [
  | some result ↦ (record d { done = none }, some result)
  | none ↦
      if leb deadline now
      then (record d { queued = if is_request id d.queued then none else d.queued }, some timeout)
      else (d, none)
]

unfoldable pub drain_wake : DynRes → DynRes
drain_wake d = record d { wake = 0 }

-- The Wayland thread takes the parked request.
unfoldable pub take : DynRes → DynRes × Option ModeRequest
take d = if is_some d.in_flight then (d, none) else elim d.queued [
  | none ↦ (d, none)
  | some r ↦ (record d { queued = none; in_flight = some r.id }, some r)
]

abbrev pub is_flying : ℕ → Option ℕ → Bool
is_flying id none = false
is_flying id (some j) = j == id

unfoldable pub complete : ℕ → Outcome → DynRes → DynRes
complete id result d = record d {
  in_flight = if is_flying id d.in_flight then none else d.in_flight;
  done = some (id, result);
}

pub data Turn : Type 0 where
  enters : (wl_name width height now deadline : ℕ) → Turn
  collects : (id now deadline : ℕ) → Turn
  takes drains : Turn
  completes : ℕ → Outcome → Turn

unfoldable pub step : DynRes → Turn → DynRes
step d (enters wl_name width height now deadline) = (enter wl_name width height now deadline d).0
step d (collects id now deadline) = (collect id now deadline d).0
step d takes = (take d).0
step d drains = drain_wake d
step d (completes id result) = complete id result d

unfoldable pub run : DynRes → List Turn → DynRes
run d [] = d
run d (t ∷ ts) = run (step d t) ts
