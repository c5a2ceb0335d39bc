-- ===== src/Wayland/DataControl/Receives/Budgets.antt =====
-- Until when a transfer goes on, and what the requestor is answered with.
use xwlrvnc.Base.{
  ℕ, ◌-◌, ◌≤◌, ◌<◌, ◌≡◌, ◌⊎◌, inl, inr, Bool, true, false, ◌&&◌, ◌||◌, not, ltb, leb, if◌then◌else◌,
  List, [], ◌∷◌, ◌++◌, arith, Option, none, some, length, length-append, Bool-cases, Option-cases,
}
use mathlib.Core.List.{append-nil, append_assoc}
use xwlrvnc.Clip.Types.{Bytes}
use xwlrvnc.Clip.Jobs.{finish}
use xwlrvnc.Clip.State.{Clipboard, is_current}
use xwlrvnc.Wayland.DataControl.Receives.{
  ReadResult, got, would_block, interrupted, failed, PendingReceive, ReadEnd, eof, too_big, budgets,
  extend, pump, answer, is_empty, finish_receive,
}

-- What the pipe held, up to the first answer that is no data.
abbrev pub arrived : List ReadResult → Bytes
arrived [] = []
arrived (got [] ∷ rs) = []
arrived (got (b ∷ bs) ∷ rs) = (b ∷ bs) ++ arrived rs
arrived (would_block ∷ rs) = []
arrived (interrupted ∷ rs) = arrived rs
arrived (failed ∷ rs) = []

-- Whether behind it stands the end of the file: all writers have closed the pipe.
abbrev pub closes : List ReadResult → Bool
closes [] = false
closes (got [] ∷ rs) = true
closes (got (b ∷ bs) ∷ rs) = closes rs
closes (would_block ∷ rs) = false
closes (interrupted ∷ rs) = closes rs
closes (failed ∷ rs) = false

-- Whether behind it stands a read that fails, for another reason than that it would block or was
-- interrupted.
abbrev pub fails : List ReadResult → Bool
fails [] = false
fails (got [] ∷ rs) = false
fails (got (b ∷ bs) ∷ rs) = fails rs
fails (would_block ∷ rs) = false
fails (interrupted ∷ rs) = fails rs
fails (failed ∷ rs) = true

-- A pass reads all that the pipe holds, unless that is more than the limit. It ends the transfer at the
-- end of the file or at a read that fails, which the code does not tell apart, and otherwise if a
-- budget has run out.
abbrev pub IsPumped :
    ℕ → List ReadResult → PendingReceive → PendingReceive × Option ReadEnd → Type 0
IsPumped now rs r (t, end) =
    ((r.max < length (r.buf ++ arrived rs)) × (end ≡ some too_big))
    ⊎ ((length (r.buf ++ arrived rs) ≤ r.max)
        × (t.buf ≡ r.buf ++ arrived rs)
        × (end ≡ (if closes rs || fails rs then some eof else budgets now t)))

pub pump_lem :
    (now : ℕ) (rs : List ReadResult) (r : PendingReceive)
    → length r.buf ≤ r.max
    → IsPumped now rs r (pump now rs r)
unfolding pump
pump_lem now [] r h = (ground (arith, append-nil r.buf))
pump_lem now (got [] ∷ rs) r h = (ground (arith, append-nil r.buf))
pump_lem now (got (b ∷ bs) ∷ rs) r h =
    let t = extend now (b ∷ bs) r in
    let e : t.buf ++ arrived rs ≡ r.buf ++ ((b ∷ bs) ++ arrived rs) =
      append_assoc r.buf (b ∷ bs) (arrived rs) in
    elim (Bool-cases (ltb r.max (length (r.buf ++ (b ∷ bs))))) [
      | inl big ↦ ground (arith, e, length-append t.buf (arrived rs))
      | inr small ↦ ground (arith, e, pump_lem now rs t (ground arith))
    ]
pump_lem now (would_block ∷ rs) r h = (ground (arith, append-nil r.buf))
pump_lem now (interrupted ∷ rs) r h = pump_lem now rs r h
pump_lem now (failed ∷ rs) r h = (ground (arith, append-nil r.buf))

pub pump_frame :
    (now : ℕ) (rs : List ReadResult) (r : PendingReceive)
    → ((pump now rs r).0.conversion ≡ r.conversion)
      × ((pump now rs r).0.sel ≡ r.sel)
      × ((pump now rs r).0.offer ≡ r.offer)
      × ((pump now rs r).0.since ≡ r.since)
      × ((pump now rs r).0.max ≡ r.max)
      × ((pump now rs r).0.total ≡ r.total)
      × ((pump now rs r).0.idle ≡ r.idle)
unfolding pump
pump_frame now [] r = ground arith
pump_frame now (got [] ∷ rs) r = ground arith
pump_frame now (got (b ∷ bs) ∷ rs) r = ground (arith, pump_frame now rs (extend now (b ∷ bs) r))
pump_frame now (would_block ∷ rs) r = ground arith
pump_frame now (interrupted ∷ rs) r = pump_frame now rs r
pump_frame now (failed ∷ rs) r = ground arith

-- A transfer that goes on is within both budgets and the limit.
pub pump_goes_on :
    (now : ℕ) (rs : List ReadResult) (r : PendingReceive)
    → length r.buf ≤ r.max
    → (pump now rs r).1 ≡ none
    → (now - r.since < r.total)
      × (now - (pump now rs r).0.progress_at < r.idle)
      × (length (pump now rs r).0.buf ≤ r.max)
      × ((pump now rs r).0.buf ≡ r.buf ++ arrived rs)
unfolding budgets
pump_goes_on now rs r h e = ground (arith, pump_lem now rs r h, pump_frame now rs r)

-- The passes of the loop, one after the other, as long as the transfer goes on.
abbrev pub read_on : List (ℕ × List ReadResult) → PendingReceive → Option PendingReceive
read_on [] r = some r
read_on ((now, rs) ∷ ps) r = elim (pump now rs r).1 [
  | some end ↦ none
  | none ↦ read_on ps (pump now rs r).0
]

abbrev pub all_arrived : List (ℕ × List ReadResult) → Bytes
all_arrived [] = []
all_arrived ((now, rs) ∷ ps) = arrived rs ++ all_arrived ps

read_on-arrived :
    (ps : List (ℕ × List ReadResult)) (r t : PendingReceive)
    → length r.buf ≤ r.max
    → read_on ps r ≡ some t
    → (t.buf ≡ r.buf ++ all_arrived ps)
      × (t.max ≡ r.max)
      × (length t.buf ≤ t.max)
      × (t.sel ≡ r.sel)
      × (t.offer ≡ r.offer)
      × (t.conversion ≡ r.conversion)
read_on-arrived [] r t h e = ground (arith, append-nil r.buf)
read_on-arrived ((now, rs) ∷ ps) r t h e = elim (Option-cases (pump now rs r).1) [
  | inl on ↦
      let u = (pump now rs r).0 in
      let (lt, idle, le, b) = pump_goes_on now rs r h on in
      let e' : read_on ps u ≡ some t = ground arith in
      ground (
        arith,
        pump_frame now rs r,
        append_assoc r.buf (arrived rs) (all_arrived ps),
        read_on-arrived ps u t (ground (arith, pump_frame now rs r)) e',
      )
  | inr (end, over) ↦ ground arith
]

-- Whether what arrived is delivered: it is within the limit, the end of the file or a read that fails
-- stands behind it, and it is not the nothing that an offer answers with when another has replaced it.
abbrev pub is_delivered : Bytes → List ReadResult → PendingReceive → Clipboard → Bool
is_delivered whole rs r c =
    leb (length whole) r.max
    && ((closes rs || fails rs) && not (is_empty whole && not (is_current r.sel r.offer c)))

-- A transfer that starts with nothing read goes on for some passes of the loop and ends in one more, at
-- `now`. Whatever ended it, the requestor is answered with the whole of what arrived, in order, if that
-- is within the limit, the last pass came to the end of the file or to a read that fails, and it is not
-- empty for an offer that is no longer current; and with a refusal otherwise. A read that fails counts
-- as the end of the file: what arrived before it is delivered as though it were the whole value.
pub finish_receive_lem :
    (ps : List (ℕ × List ReadResult)) (now : ℕ) (rs : List ReadResult) (r t : PendingReceive)
    (end : ReadEnd) (c : Clipboard)
    → r.buf ≡ []
    → read_on ps r ≡ some t
    → (pump now rs t).1 ≡ some end
    → (let whole = all_arrived ps ++ arrived rs in
        (finish_receive end (pump now rs t).0 c).jobs.answers
        ≡ c.jobs.answers
          ++ ((r.conversion, if is_delivered whole rs r c then some whole else none) ∷ []))
unfolding finish_receive finish answer budgets
finish_receive_lem ps now rs r t end c start e over =
    let (b, mx, le, sl, off, cv) = read_on-arrived ps r t (ground arith) e in
    let whole : t.buf ++ arrived rs ≡ all_arrived ps ++ arrived rs = ground arith in
    ground (arith, pump_lem now rs t le, pump_frame now rs t)
