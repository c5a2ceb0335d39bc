-- ===== src/Wayland/DataControl/Sends/Delivered.antt =====
-- What a pipe has been given, and when it is let go.
use xwlrvnc.Base.{
  rest, ℕ, zero, suc, ◌-◌, ◌≤◌, ◌<◌, ◌≡◌, ◌⊎◌, inl, inr, refl, Bool, true, false, leb, List, [],
  ◌∷◌, arith, length, take, take-add, All, All-append, length-append, length-rest, All-rest,
  All-take, All-imp, Bool-cases,
}
use xwlrvnc.Clip.Types.{Bytes}
use xwlrvnc.Wayland.DataControl.Sends.{
  WriteResult, wrote, would_block, interrupted, failed, PendingSend, Sends, no_sends, advance, pump,
  park, queue_send, is_over, pump_all, flush_pending_sends, max_pending_sends, send_timeout,
}

-- The pipe holds a prefix of the value: all that counts as written, in order.
abbrev pub IsPrefix : PendingSend → Type 0
IsPrefix s = s.pipe ≡ take s.offset s.value

abbrev pub IsUnderWay : PendingSend → Type 0
IsUnderWay s = IsPrefix s × (s.offset < length s.value)

-- Whether a write among these failed, or took nothing.
abbrev pub breaks : List WriteResult → Bool
breaks [] = false
breaks (wrote zero at ∷ rs) = true
breaks (wrote (suc n) at ∷ rs) = breaks rs
breaks (would_block ∷ rs) = false
breaks (interrupted ∷ rs) = false
breaks (failed ∷ rs) = true

pump-IsPrefix : (rs : List WriteResult) (s : PendingSend) → IsPrefix s → IsPrefix (pump rs s).0
unfolding pump advance
pump-IsPrefix [] s v = v
pump-IsPrefix (wrote zero at ∷ rs) s v = v
pump-IsPrefix (wrote (suc n) at ∷ rs) s v =
    ground (arith, take-add s.offset (suc n) s.value, pump-IsPrefix rs (advance (suc n) at s))
pump-IsPrefix (would_block ∷ rs) s v = v
pump-IsPrefix (interrupted ∷ rs) s v = v
pump-IsPrefix (failed ∷ rs) s v = v

pump_goes_on :
    (rs : List WriteResult) (s : PendingSend)
    → ((pump rs s).1 ≡ false)
    → (pump rs s).0.offset < length (pump rs s).0.value
unfolding pump advance
pump_goes_on [] s h = ground arith
pump_goes_on (wrote zero at ∷ rs) s h = ground arith
pump_goes_on (wrote (suc n) at ∷ rs) s h = ground (arith, pump_goes_on rs (advance (suc n) at s))
pump_goes_on (would_block ∷ rs) s h = ground arith
pump_goes_on (interrupted ∷ rs) s h = ground arith
pump_goes_on (failed ∷ rs) s h = ground arith

pub record IsOrderly (q : Sends) : Type 0 where
  pub within : length q.pending ≤ max_pending_sends
  pub pending : All IsUnderWay q.pending
  pub closed : All IsPrefix q.closed

prefixes : (ss : List PendingSend) → All IsUnderWay ss → All IsPrefix ss
prefixes = All-imp IsUnderWay IsPrefix (λ s u. u.0)

no_sends-IsOrderly : IsOrderly no_sends
unfolding no_sends
no_sends-IsOrderly = record { within = omega arith; pending = tt; closed = tt }

park-IsOrderly : (s : PendingSend) (q : Sends) → IsUnderWay s → IsOrderly q → IsOrderly (park s q)
unfolding park
park-IsOrderly s q u v =
    let older = All-rest IsUnderWay q.pending v.pending in
    let first = All-take IsUnderWay 1 q.pending v.pending in
    elim (Bool-cases (leb max_pending_sends (length q.pending))) [
      | inl full ↦ rw full record {
        within =
            ground
              (arith, length-append (rest q.pending) (s ∷ []), length-rest q.pending, v.within);
        pending = All-append IsUnderWay (rest q.pending) (s ∷ []) older (u, tt);
        closed =
            All-append IsPrefix q.closed (take 1 q.pending) v.closed
              (prefixes (take 1 q.pending) first);
      }
      | inr room ↦ rw room record {
        within = ground (arith, length-append q.pending (s ∷ []));
        pending = All-append IsUnderWay q.pending (s ∷ []) v.pending (u, tt);
        closed = v.closed;
      }
    ]

pump-IsUnderWay :
    (rs : List WriteResult) (s : PendingSend)
    → IsPrefix s
    → (pump rs s).1 ≡ false
    → IsUnderWay (pump rs s).0
pump-IsUnderWay rs s v h = (pump-IsPrefix rs s v, pump_goes_on rs s h)

queue_send-IsOrderly :
    (nonblocking : Bool) (rs : List WriteResult) (now fd : ℕ) (value : Bytes) (q : Sends)
    → IsOrderly q
    → IsOrderly (queue_send nonblocking rs now fd value q)
unfolding queue_send
queue_send-IsOrderly true rs now fd value q v =
    let s : PendingSend = record {
      fd = fd;
      value = value;
      offset = 0;
      progress_at = now;
      pipe = [];
    } in
    elim (Bool-cases (pump rs s).1) [
      | inl over ↦ rw over record {
        within = v.within;
        pending = v.pending;
        closed =
            All-append IsPrefix q.closed ((pump rs s).0 ∷ []) v.closed
              (pump-IsPrefix rs s refl, tt);
      }
      | inr on ↦ rw on (park-IsOrderly (pump rs s).0 q (pump-IsUnderWay rs s refl on) v)
    ]
queue_send-IsOrderly false rs now fd value q v = record {
  within = v.within;
  pending = v.pending;
  closed = All-append IsPrefix q.closed _ v.closed (refl, tt);
}

pump_all-IsOrderly :
    (now : ℕ) (results : ℕ → List WriteResult) (ss : List PendingSend)
    → All IsUnderWay ss
    → All IsUnderWay (pump_all now results ss).0
      × All IsPrefix (pump_all now results ss).1
      × (length (pump_all now results ss).0 ≤ length ss)
unfolding pump_all
pump_all-IsOrderly now results [] h = (tt, tt, omega arith)
pump_all-IsOrderly now results (s ∷ ss) (h, hs) =
    let rs = results s.fd in
    let (kept, gone, le) = pump_all-IsOrderly now results ss hs in
    let p = pump-IsPrefix rs s h.0 in
    elim (Bool-cases (is_over now (pump rs s))) [
      | inl over ↦ rw over (kept, (p, gone), omega arith)
      | inr on ↦ rw on ((pump-IsUnderWay rs s h.0 (ground arith), kept), gone, omega arith)
    ]

flush_pending_sends-IsOrderly :
    (now : ℕ) (results : ℕ → List WriteResult) (q : Sends)
    → IsOrderly q
    → IsOrderly (flush_pending_sends now results q)
unfolding flush_pending_sends
flush_pending_sends-IsOrderly now results q v =
    let (kept, gone, le) = pump_all-IsOrderly now results q.pending v.pending in
    record {
      within = omega (arith, v.within);
      pending = kept;
      closed = All-append IsPrefix q.closed (pump_all now results q.pending).1 v.closed gone;
    }

-- A `send` event of the compositor, or a pass of the loop.
pub data Call : Type 0 where
  sends : Bool → List WriteResult → (now fd : ℕ) → Bytes → Call
  passes : ℕ → (ℕ → List WriteResult) → Call

abbrev pub step : Sends → Call → Sends
step q (sends nonblocking rs now fd value) = queue_send nonblocking rs now fd value q
step q (passes now results) = flush_pending_sends now results q

abbrev pub run : Sends → List Call → Sends
run q [] = q
run q (call ∷ calls) = run (step q call) calls

run-IsOrderly_from : (q : Sends) (calls : List Call) → IsOrderly q → IsOrderly (run q calls)
run-IsOrderly_from q [] v = v
run-IsOrderly_from q (sends nonblocking rs now fd value ∷ calls) v =
    run-IsOrderly_from (queue_send nonblocking rs now fd value q) calls
      (queue_send-IsOrderly nonblocking rs now fd value q v)
run-IsOrderly_from q (passes now results ∷ calls) v =
    run-IsOrderly_from (flush_pending_sends now results q) calls
      (flush_pending_sends-IsOrderly now results q v)

-- After any sequence of sends and passes of the loop, whatever the pipes answer: at most eight pipes are
-- held; each holds exactly the bytes of its value up to the offset, with some still to come; and each
-- that was let go has been given a prefix of its value and nothing else.
pub run-IsOrderly : (calls : List Call) → IsOrderly (run no_sends calls)
run-IsOrderly calls = run-IsOrderly_from no_sends calls no_sends-IsOrderly

-- Why a pass of the loop at `now` lets a pipe go: it has been given the whole value, a write to it broke,
-- or ten seconds have passed since it last took something or was queued.
abbrev pub IsLetGo : ℕ → (ℕ → List WriteResult) → PendingSend → Type 0
IsLetGo now results s =
    (s.pipe ≡ s.value) ⊎ (breaks (results s.fd) ≡ true) ⊎ (send_timeout ≤ now - s.progress_at)
