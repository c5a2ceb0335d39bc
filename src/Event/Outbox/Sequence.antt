-- ===== src/Event/Outbox/Sequence.antt =====
-- The order on the wire: sequence numbers go forward only, and buffers leave in the order they came.
use mathlib.Core.List.{append_assoc, append-nil}
use xwlrvnc.Base.{
  ℕ, ◌+◌, ◌*◌, ◌<◌, ◌≡◌, refl, sym, ap, inl, inr, Bool, true, false, List, [], ◌∷◌, ◌++◌, none,
  some, arith, Option-cases, Bool-cases, of_some, ◌%◌, ◌/◌, if◌then◌else◌,
}
use xwlrvnc.Base.Word.{u16_mod, wrapping_sub16, nonneg16}
use xwlrvnc.Event.Outbox.{
  Client, enqueue, drop_client, close, write_setup, send_reply, send_event_bytes, writer_step,
  stamp, send, set_seq, monotonic,
}
use xwlrvnc.Event.Outbox.Calls.{
  Call, setup, reply, event, sequence, writes, drops, closes, step, run,
}
use xwlrvnc.Event.Outbox.Bounds.{recorded, send_cases}

-- The second sequence number is not behind the first, in the half range that libxcb looks at.
abbrev pub Forward : ℕ → ℕ → Type 0
Forward old new = nonneg16 (wrapping_sub16 new old) ≡ true

last_seq-enqueue : (c : Client) (buf : List ℕ) → (enqueue c buf).outbox.last_seq ≡ c.outbox.last_seq
unfolding enqueue
last_seq-enqueue c buf = ground arith

send-Forward :
    (c : Client) (seq : ℕ) (buf : List ℕ) (d : Client)
    → c.outbox.last_seq < u16_mod
    → send c seq buf ≡ some d
    → Forward c.outbox.last_seq d.outbox.last_seq
send-Forward c seq buf d b h =
    let (out, e, p) = send_cases c seq buf d h in
    ground (arith, last_seq-enqueue (recorded c seq) out, p)

last_seq-writer_step :
    (c : Client) (written : Bool) → (writer_step c written).outbox.last_seq ≡ c.outbox.last_seq
unfolding writer_step drop_client
last_seq-writer_step c written = ground arith

-- Whatever is called, the sequence number last stamped does not go backward.
pub step-Forward :
    (c : Client) (call : Call) (d : Client)
    → c.outbox.last_seq < u16_mod
    → step c call ≡ some d
    → Forward c.outbox.last_seq d.outbox.last_seq
unfolding step send_reply send_event_bytes write_setup drop_client close set_seq
step-Forward c (setup bytes) d b h = ground (arith, last_seq-enqueue c bytes)
step-Forward c (reply seq buf) d b h = ground (arith, send-Forward c seq buf d b)
step-Forward c (event buf) d b h = send-Forward c c.seq buf d b h
step-Forward c (sequence seq) d b h = ground arith
step-Forward c (writes written) d b h = ground (arith, last_seq-writer_step c written)
step-Forward c drops d b h = ground arith
step-Forward c closes d b h = ground arith

-- The sequence number in a frame's bytes 2 and 3.
abbrev pub seq_of : List ℕ → ℕ
seq_of (b0 ∷ b1 ∷ b2 ∷ b3 ∷ tail) = b2 + 256 * b3
seq_of _ = 0

pub seq_of-stamp :
    (seq : ℕ) (buf out : List ℕ) → seq < u16_mod → stamp seq buf ≡ some out → seq_of out ≡ seq
unfolding stamp
seq_of-stamp seq [] out b h = ground arith
seq_of-stamp seq (b0 ∷ []) out b h = ground arith
seq_of-stamp seq (b0 ∷ b1 ∷ []) out b h = ground arith
seq_of-stamp seq (b0 ∷ b1 ∷ b2 ∷ []) out b h = ground arith
seq_of-stamp seq (b0 ∷ b1 ∷ b2 ∷ b3 ∷ tail) out b h =
    let e : ((b0 ∷ b1 ∷ (seq % 256) ∷ (seq / 256 % 256) ∷ tail) ≡ out) = cc in
    rw (← e) (omega arith)

-- What a call hands on to the client, in the form in which it is written.
abbrev pub framed : Client → ℕ → List ℕ → List (List ℕ)
framed c seq buf = elim (stamp (monotonic c.outbox seq) buf) [ none ↦ [] | some out ↦ out ∷ [] ]

abbrev pub offered : Client → Call → List (List ℕ)
offered c (setup bytes) = bytes ∷ []
offered c (reply seq buf) = framed c seq buf
offered c (event buf) = framed c c.seq buf
offered c _ = []

abbrev pub accepted : Client → Call → List (List ℕ)
accepted c call = if c.outbox.closed then [] else offered c call

-- All that has been written or waits to be.
abbrev pub history : Client → List (List ℕ)
history c = c.wire ++ c.outbox.queue

history-enqueue :
    (c : Client) (buf : List ℕ)
    → (enqueue c buf).shut ≡ false
    → history (enqueue c buf) ≡ history c ++ (if c.outbox.closed then [] else (buf ∷ []))
unfolding enqueue
history-enqueue c buf h =
    ground (arith, append_assoc c.wire c.outbox.queue (buf ∷ []), append-nil (history c))

history-send :
    (c : Client) (seq : ℕ) (buf : List ℕ) (d : Client)
    → send c seq buf ≡ some d
    → d.shut ≡ false
    → history d ≡ history c ++ (if c.outbox.closed then [] else framed c seq buf)
history-send c seq buf d h s =
    let (out, e, p) = send_cases c seq buf d h in
    ground (arith, p, e, history-enqueue (recorded c seq) out)

history-writer_step_from :
    (c : Client) (q : List (List ℕ)) (written : Bool)
    → c.outbox.queue ≡ q
    → (writer_step c written).shut ≡ false
    → history (writer_step c written) ≡ history c
unfolding writer_step drop_client
history-writer_step_from c [] written e h = rw (e, writer_step) (ap (◌++◌ c.wire) e)
history-writer_step_from c (b ∷ q) true e h = ground (arith, append_assoc c.wire (b ∷ []) q)
history-writer_step_from c (b ∷ q) false e h = ground arith

history-writer_step :
    (c : Client) (written : Bool)
    → (writer_step c written).shut ≡ false
    → history (writer_step c written) ≡ history c
history-writer_step c written h = history-writer_step_from c c.outbox.queue written refl h

-- One call.
step-history :
    (c : Client) (call : Call) (d : Client)
    → step c call ≡ some d
    → d.shut ≡ false
    → history d ≡ history c ++ accepted c call
unfolding step send_reply send_event_bytes write_setup drop_client close set_seq
step-history c (setup bytes) d h s = ground (arith, history-enqueue c bytes)
step-history c (reply seq buf) d h s = ground (arith, history-send c seq buf d)
step-history c (event buf) d h s = history-send c c.seq buf d h s
step-history c (sequence seq) d h s = ground (arith, append-nil (history c))
step-history c (writes written) d h s =
    ground (arith, history-writer_step c written, append-nil (history c))
step-history c drops d h s = ground arith
step-history c closes d h s = ground (arith, append-nil (history c))

shut-enqueue : (c : Client) (buf : List ℕ) → c.shut ≡ true → (enqueue c buf).shut ≡ true
unfolding enqueue
shut-enqueue c buf h = ground arith

shut-send :
    (c : Client) (seq : ℕ) (buf : List ℕ) (d : Client)
    → send c seq buf ≡ some d
    → c.shut ≡ true
    → d.shut ≡ true
shut-send c seq buf d h s =
    let (out, e, p) = send_cases c seq buf d h in
    ground (arith, p, shut-enqueue (recorded c seq) out)

-- A socket that was shut down stays so.
step-shut :
    (c : Client) (call : Call) (d : Client) → step c call ≡ some d → c.shut ≡ true → d.shut ≡ true
unfolding step send_reply send_event_bytes write_setup writer_step drop_client close set_seq
step-shut c (setup bytes) d h s = ground (arith, shut-enqueue c bytes)
step-shut c (reply seq buf) d h s = ground (arith, shut-send c seq buf d)
step-shut c (event buf) d h s = shut-send c c.seq buf d h s
step-shut c _ d h s = ground arith

run-shut :
    (c : Client) (calls : List Call) (d : Client)
    → run c calls ≡ some d
    → c.shut ≡ true
    → d.shut ≡ true
unfolding run
run-shut c [] d h s = ground arith
run-shut c (call ∷ calls) d h s = elim (Option-cases (step c call)) [
  | inl e ↦ ground arith
  | inr (m, e) ↦ run-shut m calls d (ground arith) (step-shut c call m e s)
]

-- What a run of calls hands on, in order.
abbrev pub accepted_run : Client → List Call → List (List ℕ)
accepted_run c [] = []
accepted_run c (call ∷ calls) = elim (step c call) [
  | none ↦ []
  | some d ↦ accepted c call ++ accepted_run d calls
]

-- Under any interleaving of calls, and unless the client was dropped, what has been written to the
-- socket followed by what is queued is what was written and queued at first, followed by the buffers
-- that the calls accepted, each once, in the order of the calls: nothing is lost or reordered.
pub run_in_order :
    (c : Client) (calls : List Call) (d : Client)
    → run c calls ≡ some d
    → d.shut ≡ false
    → history d ≡ history c ++ accepted_run c calls
unfolding run
run_in_order c [] d h s =
    of_some (λ x. history x ≡ history c ++ []) c d h (sym (append-nil (history c)))
run_in_order c (call ∷ calls) d h s = elim (Option-cases (step c call)) [
  | inl e ↦ ground arith
  | inr (m, e) ↦
      let h' : run m calls ≡ some d = ground arith in
      let open_mid : m.shut ≡ false = elim (Bool-cases m.shut) [
        | inl up ↦ let u = run-shut m calls d h' up in ground arith
        | inr down ↦ down
      ] in
      rw (e, accepted_run, run_in_order m calls d h' s, step-history c call m e open_mid)
        (append_assoc (history c) (accepted c call) (accepted_run m calls))
]

queue-enqueue :
    (c : Client) (buf : List ℕ)
    → (enqueue c buf).outbox.closed ≡ false
    → (enqueue c buf).outbox.queue ≡ c.outbox.queue ++ (buf ∷ [])
unfolding enqueue
queue-enqueue c buf h = ground arith

-- A reply or an event that is taken leaves a frame at the end of the queue whose bytes 2 and 3 are
-- the client's last stamped sequence number, which is not behind the one before.
pub send_frame :
    (c : Client) (seq : ℕ) (buf : List ℕ) (d : Client)
    → c.outbox.last_seq < u16_mod
    → seq < u16_mod
    → send c seq buf ≡ some d
    → d.outbox.closed ≡ false
    → (out : List ℕ) × (d.outbox.queue ≡ c.outbox.queue ++ (out ∷ []))
      × (seq_of out ≡ d.outbox.last_seq)
      × Forward c.outbox.last_seq d.outbox.last_seq
send_frame c seq buf d b bs h o =
    let (out, e, p) = send_cases c seq buf d h in
    (
      out,
      ground (arith, p, queue-enqueue (recorded c seq) out),
      ground (
        arith,
        p,
        last_seq-enqueue (recorded c seq) out,
        seq_of-stamp (monotonic c.outbox seq) buf out,
      ),
      send-Forward c seq buf d b h,
    )
