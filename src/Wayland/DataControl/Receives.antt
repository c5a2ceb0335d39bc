-- ===== src/Wayland/DataControl/Receives.antt =====
-- A Wayland-owned value on its way out of the pipe of an application: `PendingReceive`.
pub mod Budgets
use xwlrvnc.Base.{
  ℕ, ◌-◌, Bool, true, false, not, ◌&&◌, leb, ltb, if◌then◌else◌, List, [], ◌∷◌, ◌++◌, Option, none,
  some, length,
}
use Prim.Native.String.{String}
use xwlrvnc.Clip.Types.{Bytes, Sel, DataOffer}
use xwlrvnc.Clip.Jobs.{finish}
use xwlrvnc.Clip.State.{Clipboard, is_current}

abbrev pub max_pending_receives : ℕ
max_pending_receives = 8

-- 5 s
abbrev pub receive_idle_timeout : ℕ
receive_idle_timeout = 5000

-- 30 s
abbrev pub receive_timeout : ℕ
receive_timeout = 30000

-- What `read` returns: the bytes, none of them at the end of the file, or an error.
pub data ReadResult : Type 0 where
  got : Bytes → ReadResult
  would_block interrupted failed : ReadResult

pub record PendingReceive : Type 0 where
  pub fd : ℕ
  pub sel : Sel
  pub mime : String
  pub offer : DataOffer
  pub buf : Bytes
  pub since : ℕ
  pub progress_at : ℕ
  pub idle : ℕ
  pub total : ℕ
  pub max : ℕ
  pub conversion : ℕ

pub data ReadEnd : Type 0 where
  eof stalled too_slow too_big : ReadEnd

-- What the clock says of a transfer whose pipe holds nothing right now.
unfoldable pub budgets : ℕ → PendingReceive → Option ReadEnd
budgets now r =
    if leb r.total (now - r.since)
    then some too_slow
    else if leb r.idle (now - r.progress_at)
    then some stalled
    else none

abbrev pub extend : ℕ → Bytes → PendingReceive → PendingReceive
extend now chunk r = record r { buf = r.buf ++ chunk; progress_at = now }

-- After the results listed the pipe is empty. A read that fails is taken for the end of the file.
unfoldable pub pump : ℕ → List ReadResult → PendingReceive → PendingReceive × Option ReadEnd
pump now [] r = (r, budgets now r)
pump now (got [] ∷ rs) r = (r, some eof)
pump now (got (b ∷ bs) ∷ rs) r =
    let t = extend now (b ∷ bs) r in
    let more = pump now rs t in if ltb t.max (length t.buf) then (t, some too_big) else more
pump now (would_block ∷ rs) r = (r, budgets now r)
pump now (interrupted ∷ rs) r = pump now rs r
pump now (failed ∷ rs) r = (r, some eof)

abbrev pub is_empty : Bytes → Bool
is_empty [] = true
is_empty (b ∷ bs) = false

-- What the requestor is answered with.
unfoldable pub answer : ReadEnd → PendingReceive → Clipboard → Option Bytes
answer eof r c = if is_empty r.buf && not (is_current r.sel r.offer c) then none else some r.buf
answer stalled r c = none
answer too_slow r c = none
answer too_big r c = none

unfoldable pub finish_receive : ReadEnd → PendingReceive → Clipboard → Clipboard
finish_receive end r c = record c { jobs = finish c.jobs r.conversion (answer end r c) }

-- The transfers still going, and the clipboard with the others answered; `results` is by pipe.
unfoldable pub flush_pending_receives :
    ℕ → (ℕ → List ReadResult) → List PendingReceive → Clipboard → List PendingReceive × Clipboard
flush_pending_receives now results [] c = ([], c)
flush_pending_receives now results (r ∷ rs) c =
    let t = pump now (results r.fd) r in
    elim t.1 [
      | some end ↦ flush_pending_receives now results rs (finish_receive end t.0 c)
      | none ↦ let (kept, d) = flush_pending_receives now results rs c in (t.0 ∷ kept, d)
    ]
