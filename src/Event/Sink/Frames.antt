-- ===== src/Event/Sink/Frames.antt =====
-- What a client's queue holds after it was told some events.
use mathlib.Core.List.{append_assoc, append-nil}
use xwlrvnc.Base.{
  ℕ, subst, ◌+◌, ◌%◌, ◌/◌, ◌<◌, ◌≡◌, refl, ap, ◌∙◌, ◌⊎◌, true, false, some, List, [], ◌∷◌, ◌++◌,
  map, arith, ◌>>=◌,
}
use xwlrvnc.Event.Sink.{Notice, padded, send_all}
use xwlrvnc.Event.Outbox.Bounds.{IsValid, recorded, send-IsValid, total}
use xwlrvnc.Event.Outbox.{
  Client, enqueue, max_queued_bytes, monotonic, send, send_event_bytes, stamp,
}

-- A frame on the wire: what x11rb makes of an event, with zeroes up to 32 bytes, and with the
-- sequence number in bytes 2 and 3.
abbrev numbered : ℕ → ℕ → ℕ → List ℕ → List ℕ
numbered seq a b tail = a ∷ b ∷ (seq % 256) ∷ (seq / 256 % 256) ∷ padded 28 tail

abbrev pub frame : ℕ → List ℕ → List ℕ
frame seq [] = numbered seq 0 0 []
frame seq (a ∷ []) = numbered seq a 0 []
frame seq (a ∷ b ∷ []) = numbered seq a b []
frame seq (a ∷ b ∷ c ∷ []) = numbered seq a b []
frame seq (a ∷ b ∷ c ∷ d ∷ tail) = numbered seq a b tail

stamp-padded : (seq : ℕ) (bytes : List ℕ) → stamp seq (padded 32 bytes) ≡ some (frame seq bytes)
unfolding stamp
stamp-padded seq [] = refl
stamp-padded seq (a ∷ []) = refl
stamp-padded seq (a ∷ b ∷ []) = refl
stamp-padded seq (a ∷ b ∷ c ∷ []) = refl
stamp-padded seq (a ∷ b ∷ c ∷ d ∷ bytes) = refl

-- The frames of events told to a client, in order, and the number that all of them carry: the client's
-- sequence number, or the last one stamped if that is ahead of it.
abbrev pub told_seq : Client → ℕ
told_seq c = monotonic c.outbox c.seq

abbrev pub frames : (Notice → List ℕ) → ℕ → List Notice → List (List ℕ)
frames serialize seq notices = map (λ n. frame seq (serialize n)) notices

-- A client is given frames: nothing happens if its outbox is closed; they overflow it, and it is closed; or they
-- stand behind what was queued, in order.
abbrev pub IsGiven : List (List ℕ) → Client → Client → Type 0
IsGiven outs c d =
    ((c.outbox.closed ≡ true) × (d.outbox.closed ≡ true))
    ⊎ ((c.outbox.closed ≡ false)
        × (max_queued_bytes < c.outbox.bytes + total outs)
        × (d.outbox.closed ≡ true))
    ⊎ ((c.outbox.closed ≡ false)
        × (d.outbox.closed ≡ false)
        × (d.outbox.queue ≡ c.outbox.queue ++ outs)
        × (d.outbox.bytes ≡ c.outbox.bytes + total outs))

abbrev pub Took : List (List ℕ) → Client → Client → Type 0
Took outs c d = IsValid d × IsGiven outs c d

enqueue-IsGiven :
    (c : Client) (seq : ℕ) (out : List ℕ) → IsGiven (out ∷ []) c (enqueue (recorded c seq) out)
unfolding enqueue
enqueue-IsGiven c seq out = ground arith

IsGiven-trans :
    (out : List ℕ) (outs : List (List ℕ)) (c d f : Client)
    → IsGiven (out ∷ []) c d
    → IsGiven outs d f
    → IsGiven (out ∷ outs) c f
IsGiven-trans out outs c d f g h = ground (arith, append_assoc c.outbox.queue (out ∷ []) outs)

told_seq-enqueue :
    (c : Client) (out : List ℕ) → told_seq (enqueue (recorded c c.seq) out) ≡ told_seq c
unfolding enqueue
told_seq-enqueue c out = ground arith

send_lem :
    (c : Client) (buf out : List ℕ)
    → stamp (monotonic c.outbox c.seq) buf ≡ some out
    → send c c.seq buf ≡ some (enqueue (recorded c c.seq) out)
unfolding send
send_lem c buf out e = rw (send, e) refl

module _ (serialize : Notice → List ℕ) where
  -- Whatever x11rb makes of the events, the sending does not panic.
  pub send_all_lem :
      (notices : List Notice) (c : Client)
      → IsValid c
      → (d : Client) × (send_all serialize notices c ≡ some d)
        × Took (frames serialize (told_seq c) notices) c d
  unfolding send_event_bytes
  send_all_lem [] c v = (c, refl, (v, ground (arith, append-nil c.outbox.queue)))
  send_all_lem (notice ∷ notices) c v =
      let bytes = serialize notice in
      let out = frame (told_seq c) bytes in
      let d = enqueue (recorded c c.seq) out in
      let sent = send_lem c (padded 32 bytes) out (stamp-padded (told_seq c) bytes) in
      let (f, g, took) = send_all_lem notices d (send-IsValid c c.seq (padded 32 bytes) d v sent) in
      let given : IsGiven (frames serialize (told_seq c) notices) d f =
        subst (λ s. IsGiven (frames serialize s notices) d f) (told_seq-enqueue c out) took.1 in
      (
        f,
        ap (λ o. o >>= send_all serialize notices) sent ∙ g,
        (
          took.0,
          IsGiven-trans out (frames serialize (told_seq c) notices) c d f
              (enqueue-IsGiven c c.seq out) given,
        ),
      )
