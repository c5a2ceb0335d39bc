-- ===== src/Wayland/DataControl/Sends.antt =====
-- An X-owned value on its way into the pipe of an application: `PendingSend` and the queue of them.
-- `pipe` is what the pipe has been given; `closed` are the sends whose pipe the code has let go.
pub mod Delivered
use xwlrvnc.Base.{
  ℕ, zero, suc, ◌+◌, ◌-◌, Bool, true, false, ◌||◌, leb, if◌then◌else◌, List, [], ◌∷◌, ◌++◌, length,
  take, drop, rest,
}
use xwlrvnc.Clip.Types.{Bytes}

abbrev pub max_pending_sends : ℕ
max_pending_sends = 8

-- 10 s
abbrev pub send_timeout : ℕ
send_timeout = 10000

-- What `write` returns: a count and the clock after it, or an error.
pub data WriteResult : Type 0 where
  wrote : (count at : ℕ) → WriteResult
  would_block interrupted failed : WriteResult

pub record PendingSend : Type 0 where
  pub fd : ℕ
  pub value : Bytes
  pub offset : ℕ
  pub progress_at : ℕ
  pub pipe : Bytes

pub record Sends : Type 0 where
  pub pending : List PendingSend
  pub closed : List PendingSend

unfoldable pub no_sends : Sends
no_sends = record { pending = []; closed = [] }

-- A write of `n` bytes of the rest.
unfoldable pub advance : ℕ → ℕ → PendingSend → PendingSend
advance n at s = record s {
  offset = s.offset + n;
  progress_at = at;
  pipe = s.pipe ++ take n (drop s.offset s.value);
}

-- Whether everything is written.
abbrev pub is_done : PendingSend → Bool
is_done s = leb (length s.value) s.offset

-- Writes until the pipe is full, and whether the transfer is over. After the results listed the pipe is
-- full.
unfoldable pub pump : List WriteResult → PendingSend → PendingSend × Bool
pump [] s = (s, is_done s)
pump (wrote zero at ∷ rs) s = (s, true)
pump (wrote (suc n) at ∷ rs) s =
    let more = pump rs (advance (suc n) at s) in if is_done s then (s, true) else more
pump (would_block ∷ rs) s = (s, is_done s)
pump (interrupted ∷ rs) s = (s, is_done s)
pump (failed ∷ rs) s = (s, true)

-- The oldest makes room.
unfoldable pub park : PendingSend → Sends → Sends
park s q =
    if leb max_pending_sends (length q.pending)
    then record { pending = rest q.pending ++ (s ∷ []); closed = q.closed ++ take 1 q.pending }
    else record q { pending = q.pending ++ (s ∷ []) }

-- `nonblocking` is whether the pipe could be made so.
unfoldable pub queue_send : Bool → List WriteResult → ℕ → ℕ → Bytes → Sends → Sends
queue_send nonblocking results now fd value q =
    let s : PendingSend = record {
      fd = fd;
      value = value;
      offset = 0;
      progress_at = now;
      pipe = [];
    } in
    let (t, over) = pump results s in
    if nonblocking
    then (if over then record q { closed = q.closed ++ (t ∷ []) } else park t q)
    else record q { closed = q.closed ++ (s ∷ []) }

abbrev pub is_over : ℕ → PendingSend × Bool → Bool
is_over now (s, over) = over || leb send_timeout (now - s.progress_at)

-- The sends that stay, and those that are let go; `results` is by pipe.
unfoldable pub pump_all :
    ℕ → (ℕ → List WriteResult) → List PendingSend → List PendingSend × List PendingSend
pump_all now results [] = ([], [])
pump_all now results (s ∷ ss) =
    let t = pump (results s.fd) s in
    let (kept, gone) = pump_all now results ss in
    if is_over now t then (kept, t.0 ∷ gone) else (t.0 ∷ kept, gone)

unfoldable pub flush_pending_sends : ℕ → (ℕ → List WriteResult) → Sends → Sends
flush_pending_sends now results q =
    let (kept, gone) = pump_all now results q.pending in
    record { pending = kept; closed = q.closed ++ gone }
