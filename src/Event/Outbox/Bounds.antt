-- ===== src/Event/Outbox/Bounds.antt =====
-- What holds of the outbox between two calls: its byte count, its cap, and the order on the wire.
use xwlrvnc.Base.{
  ℕ, ◌+◌, ◌-◌, ◌≤◌, ◌≡◌, refl, ◌⊎◌, inl, inr, Bool, true, false, List, [], ◌∷◌, ◌++◌, length,
  of_some, some, arith, Option-cases, suc,
}
use xwlrvnc.Event.Outbox.Calls.{
  Call, setup, reply, event, sequence, writes, drops, closes, step, run,
}
use xwlrvnc.Event.Outbox.{
  Client, max_queued_bytes, new, enqueue, drop_client, close, write_setup, send_reply,
  send_event_bytes, writer_step, stamp, send, set_seq, monotonic,
}

abbrev pub total : List (List ℕ) → ℕ
total [] = 0
total (b ∷ bs) = length b + total bs

-- How many queued buffers hold a byte at all.
abbrev pub backlog : List (List ℕ) → ℕ
backlog [] = 0
backlog ([] ∷ bs) = backlog bs
backlog ((x ∷ b) ∷ bs) = suc (backlog bs)

pub total-append : (xs ys : List (List ℕ)) → total (xs ++ ys) ≡ total xs + total ys
total-append [] ys = omega arith
total-append (x ∷ xs) ys = omega (arith, total-append xs ys)

pub backlog-append : (xs ys : List (List ℕ)) → backlog (xs ++ ys) ≡ backlog xs + backlog ys
backlog-append [] ys = omega arith
backlog-append ([] ∷ xs) ys = backlog-append xs ys
backlog-append ((b ∷ x) ∷ xs) ys = omega (arith, backlog-append xs ys)

backlog-le-total : (xs : List (List ℕ)) → backlog xs ≤ total xs
backlog-le-total [] = omega arith
backlog-le-total ([] ∷ xs) = omega (arith, backlog-le-total xs)
backlog-le-total ((b ∷ x) ∷ xs) = omega (arith, backlog-le-total xs)

backlog_one : (b : List ℕ) → backlog (b ∷ []) ≤ 1
backlog_one [] = omega arith
backlog_one (x ∷ b) = omega arith

backlog_tail : (b : List ℕ) (bs : List (List ℕ)) → backlog bs ≤ backlog (b ∷ bs)
backlog_tail [] bs = omega arith
backlog_tail (x ∷ b) bs = omega arith

-- `bytes` is what the queue holds; a backlog is within the cap, unless a single write makes it up;
-- a client whose socket was shut down is closed with nothing queued, and a closed one is dead.
pub record IsValid (c : Client) : Type 0 where
  pub counted : c.outbox.bytes ≡ total c.outbox.queue
  pub capped : (c.outbox.bytes ≤ max_queued_bytes) ⊎ (backlog c.outbox.queue ≤ 1)
  pub shut_closed : c.shut ≡ true → (c.outbox.closed ≡ true) × (c.outbox.queue ≡ [])
  pub closed_dead : c.outbox.closed ≡ true → c.dead ≡ true

pub new-IsValid : IsValid new
unfolding new
new-IsValid = ground arith

pub enqueue-IsValid : (c : Client) (buf : List ℕ) → IsValid c → IsValid (enqueue c buf)
unfolding enqueue
enqueue-IsValid c buf v = ground (
  arith,
  total-append c.outbox.queue (buf ∷ []),
  backlog-append c.outbox.queue (buf ∷ []),
  backlog-le-total c.outbox.queue,
  backlog_one buf,
)

pub drop_client-IsValid : (c : Client) → IsValid (drop_client c)
unfolding drop_client
drop_client-IsValid c = ground arith

pub close-IsValid : (c : Client) → IsValid c → IsValid (close c)
unfolding close
close-IsValid c v = ground arith

-- What a send queues, after recording the sequence that it stamped.
abbrev pub recorded : Client → ℕ → Client
recorded c seq = record c { outbox = record c.outbox { last_seq = monotonic c.outbox seq } }

pub send_cases :
    (c : Client) (seq : ℕ) (buf : List ℕ) (d : Client)
    → send c seq buf ≡ some d
    → (out : List ℕ) × (stamp (monotonic c.outbox seq) buf ≡ some out)
      × (d ≡ enqueue (recorded c seq) out)
unfolding send
send_cases c seq buf d h = elim (Option-cases (stamp (monotonic c.outbox seq) buf)) [
  | inl e ↦ ground arith
  | inr (out, e) ↦ (out, e, ground arith)
]

pub send-IsValid :
    (c : Client) (seq : ℕ) (buf : List ℕ) (d : Client)
    → IsValid c
    → send c seq buf ≡ some d
    → IsValid d
send-IsValid c seq buf d v h =
    let (out, e, p) = send_cases c seq buf d h in
    rw p (
      enqueue-IsValid (recorded c seq) out (record {
        counted = v.counted;
        capped = v.capped;
        shut_closed = v.shut_closed;
        closed_dead = v.closed_dead;
      }))

writer_step_from :
    (c : Client) (q : List (List ℕ)) (written : Bool)
    → c.outbox.queue ≡ q
    → IsValid c
    → IsValid (writer_step c written)
unfolding writer_step
writer_step_from c [] written e v = rw (e, writer_step) v
writer_step_from c (b ∷ q) true e v = ground (arith, backlog_tail b q)
writer_step_from c (b ∷ q) false e v =
    rw (e, writer_step)
      (drop_client-IsValid
        (record c { outbox = record c.outbox { bytes = c.outbox.bytes - length b; queue = q } }))

pub writer_step-IsValid :
    (c : Client) (written : Bool) → IsValid c → IsValid (writer_step c written)
writer_step-IsValid c written v = writer_step_from c c.outbox.queue written refl v

reply_cases :
    (c : Client) (seq : ℕ) (buf : List ℕ) (d : Client)
    → step c (reply seq buf) ≡ some d
    → send c seq buf ≡ some d
unfolding step send_reply
reply_cases c seq buf d h = ground arith

-- Every call keeps the outbox valid, in whatever order the three threads make them.
pub step-IsValid :
    (c : Client) (call : Call) (d : Client) → IsValid c → step c call ≡ some d → IsValid d
unfolding step write_setup send_event_bytes set_seq
step-IsValid c (setup bytes) d v h = of_some IsValid _ d h (enqueue-IsValid c bytes v)
step-IsValid c (reply seq buf) d v h = send-IsValid c seq buf d v (reply_cases c seq buf d h)
step-IsValid c (event buf) d v h = send-IsValid c c.seq buf d v h
step-IsValid c (sequence seq) d v h = ground arith
step-IsValid c (writes written) d v h = of_some IsValid _ d h (writer_step-IsValid c written v)
step-IsValid c drops d v h = of_some IsValid _ d h (drop_client-IsValid c)
step-IsValid c closes d v h = of_some IsValid _ d h (close-IsValid c v)

pub run-IsValid :
    (c : Client) (calls : List Call) (d : Client) → IsValid c → run c calls ≡ some d → IsValid d
unfolding run
run-IsValid c [] d v h = of_some IsValid _ d h v
run-IsValid c (call ∷ calls) d v h = elim (Option-cases (step c call)) [
  | inl e ↦ ground arith
  | inr (m, e) ↦ run-IsValid m calls d (step-IsValid c call m v e) (ground arith)
]

-- A client's outbox stays valid from the connection's start on, under any interleaving of replies,
-- events, writes and closings: the byte count is that of the queue, and the bytes queued are within
-- the cap unless at most one buffer that holds a byte is queued; the socket is shut down only with the
-- outbox closed and emptied, and only a dead client's outbox is closed.
pub run-new-IsValid : (calls : List Call) (d : Client) → run new calls ≡ some d → IsValid d
run-new-IsValid calls d h = run-IsValid new calls d new-IsValid h
