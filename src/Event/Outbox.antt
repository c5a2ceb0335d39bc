-- ===== src/Event/Outbox.antt =====
-- bridge/event/client.rs: one connection's outbound queue, and what the client asked to be told.
-- A method returns the new client; `Ok(())` and `Err(BrokenPipe)` are `true` and `false`. The mutex
-- makes each method one step; the condition variable only wakes the writer thread, whose turn is
-- `writer_step`: the taking of a buffer and its write to the socket as one step, though the source writes
-- outside the lock, so that a call of another thread between the two comes after the write here. Sums of lengths are unbounded: a `usize` count of buffered bytes cannot overflow.
pub mod Bounds
pub mod Calls
pub mod Registrations
pub mod Sequence
use xwlrvnc.Base.{
  ℕ, ◌+◌, ◌-◌, ◌*◌, ◌/◌, ◌%◌, ◌^◌, Bool, true, false, not, ◌&&◌, ltb, ◌==◌, if◌then◌else◌, List, [],
  ◌∷◌, ◌++◌, map, length, retain, Option, none, some,
}
use xwlrvnc.Base.Word.{wrapping_sub16, nonneg16}

-- 64 << 20
abbrev pub max_queued_bytes : ℕ
max_queued_bytes = 64 * 2 ^ 20

pub record Outbox : Type 0 where
  pub queue : List (List ℕ)
  pub bytes : ℕ
  pub last_seq : ℕ
  pub closed : Bool

-- Clamps `seq` so that the wire sequence never decreases.
abbrev pub monotonic : Outbox → ℕ → ℕ
monotonic o seq = if nonneg16 (wrapping_sub16 seq o.last_seq) then seq else o.last_seq

pub record SelReg : Type 0 where
  pub atom : ℕ
  pub window : ℕ
  pub mask : ℕ

-- `shut` tells whether the socket was shut down, and `wire` is what the writer thread has written.
pub record Client : Type 0 where
  pub outbox : Outbox
  pub seq : ℕ
  pub randr_window : ℕ
  pub cursor_window : ℕ
  pub selections : List SelReg
  pub dead : Bool
  pub root_structure : Bool
  pub shut : Bool
  pub wire : List (List ℕ)

unfoldable pub new : Client
new = record {
  outbox = record { queue = []; bytes = 0; last_seq = 0; closed = false };
  seq = 0;
  randr_window = 0;
  cursor_window = 0;
  selections = [];
  dead = false;
  root_structure = false;
  shut = false;
  wire = [];
}

pub mark_dead : Client → Client
mark_dead c = record c { dead = true }

-- The outbox closed, with nothing left to send.
abbrev pub discarded : Outbox → Outbox
discarded o = record o { closed = true; queue = []; bytes = 0 }

unfoldable pub enqueue : Client → List ℕ → Client
enqueue c buf =
    let o = c.outbox in
    if o.closed
    then c
    else if ltb 0 o.bytes && ltb max_queued_bytes (o.bytes + length buf)
    then record c { dead = true; outbox = discarded o; shut = true }
    else record c {
      outbox = record o { bytes = o.bytes + length buf; queue = o.queue ++ (buf ∷ []) };
    }

unfoldable pub drop_client : Client → Client
unfolding mark_dead
drop_client c = let d = mark_dead c in record d { outbox = discarded c.outbox; shut = true }

unfoldable pub close : Client → Client
unfolding mark_dead
close c = let d = mark_dead c in record d { outbox = record c.outbox { closed = true } }

pub check_open : Client → Bool
check_open c = not c.outbox.closed

unfoldable pub write_setup : Client → List ℕ → Client × Bool
unfolding check_open
write_setup c bytes = let d = enqueue c bytes in (d, check_open d)

-- `buf[2..4].copy_from_slice(&seq.to_le_bytes())`; `none` is the panic on a shorter buffer.
unfoldable pub stamp : ℕ → List ℕ → Option (List ℕ)
stamp seq (b0 ∷ b1 ∷ b2 ∷ b3 ∷ tail) = some (b0 ∷ b1 ∷ (seq % 256) ∷ (seq / 256 % 256) ∷ tail)
stamp seq _ = none

-- The stamped sequence is recorded before the buffer is queued, also where it is refused.
unfoldable pub send : Client → ℕ → List ℕ → Option Client
send c seq buf =
    let s = monotonic c.outbox seq in
    elim (stamp s buf) [
      | none ↦ none
      | some out ↦ some (enqueue (record c { outbox = record c.outbox { last_seq = s } }) out)
    ]

unfoldable pub send_reply : Client → ℕ → List ℕ → Option (Client × Bool)
unfolding send check_open
send_reply c seq buf = elim (send c seq buf) [ none ↦ none | some d ↦ some (d, check_open d) ]

unfoldable pub send_event_bytes : Client → List ℕ → Option Client
unfolding send
send_event_bytes c buf = send c c.seq buf

-- One turn of `writer_loop`: `written` tells whether `write_all` succeeds.
unfoldable pub writer_step : Client → Bool → Client
unfolding drop_client
writer_step c written = elim c.outbox.queue [
  | [] ↦ c
  | buf ∷ behind ↦
      let popped = record c {
        outbox = record c.outbox { bytes = c.outbox.bytes - length buf; queue = behind };
      } in
      if written then record popped { wire = c.wire ++ (buf ∷ []) } else drop_client popped
]

pub set_seq : Client → ℕ → Client
set_seq c seq = record c { seq = seq }

abbrev pub select_randr : Client → ℕ → Client
select_randr c window = record c { randr_window = window }

abbrev pub select_cursor : Client → ℕ → Client
select_cursor c window = record c { cursor_window = window }

abbrev pub select_root_structure : Client → Bool → Client
select_root_structure c enable = record c { root_structure = enable }

unfoldable pub select_selection : Client → ℕ → ℕ → ℕ → Client
select_selection c atom window mask =
    let kept = retain (λ s. not (s.atom == atom && s.window == window)) c.selections in
    record c {
      selections =
          if mask == 0
          then kept
          else kept ++ (record { atom = atom; window = window; mask = mask } ∷ []);
    }

unfoldable pub forget_window : Client → ℕ → Client
forget_window c window = record c {
  selections = retain (λ s. not (s.window == window)) c.selections;
}

-- The mask bit that lets `subtype` through, `1 << subtype`, is set.
abbrev pub lets_through : ℕ → ℕ → Bool
lets_through mask subtype = mask / 2 ^ subtype % 2 == 1

unfoldable pub selections_for : Client → ℕ → ℕ → List (ℕ × ℕ)
selections_for c atom subtype =
    map (λ r. (r.window, r.atom))
      (retain (λ r. r.atom == atom && lets_through r.mask subtype) c.selections)
