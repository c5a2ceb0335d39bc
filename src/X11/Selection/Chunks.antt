-- ===== src/X11/Selection/Chunks.antt =====
-- Chunked receives: the value assembled is the concatenation of the chunks, within the cap.
use xwlrvnc.Base.{
  ℕ, ◌+◌, ◌≤◌, ◌≡◌, inl, inr, refl, false, List, [], ◌∷◌, ◌++◌, Option, none, some, arith, length,
  length-append, is_empty, Option-cases, sym, ◌∙◌,
}
use mathlib.Core.List.{append_assoc, append-nil}
use xwlrvnc.Base.Assoc
use xwlrvnc.Base.Assoc.{get-insert, get-remove}
use xwlrvnc.Clip.Types.{Bytes}
use xwlrvnc.Clip.State.{max_selection_bytes}
use xwlrvnc.X11.Selection.{
  Fetch, IncrRecv, Selection, IncrStep, more, done, begin_incr, incr_push, incr_chunk,
}

-- The chunks pushed one after the other, with the times they came at; the steps taken before the
-- last are dropped.
abbrev pub push_all : ℕ → List (ℕ × Bytes) → Selection → Option Selection
push_all property [] s = some s
push_all property ((now, chunk) ∷ chunks) s = elim (incr_push property chunk now s) [
  | none ↦ none
  | some (t, _) ↦ push_all property chunks t
]

abbrev pub joined : List (ℕ × Bytes) → Bytes
joined [] = []
joined ((now, chunk) ∷ chunks) = chunk ++ joined chunks

abbrev pub NonEmpty : List (ℕ × Bytes) → Type 0
NonEmpty [] = Unit
NonEmpty ((now, chunk) ∷ chunks) = (is_empty chunk ≡ false) × NonEmpty chunks

-- A chunk that fits is put behind what was received.
incr_push_more :
    (property : ℕ) (chunk : Bytes) (now : ℕ) (s : Selection) (i : IncrRecv)
    → Assoc.get property s.incr ≡ some i
    → is_empty chunk ≡ false
    → length i.received + length chunk ≤ max_selection_bytes
    → incr_push property chunk now s
      ≡ some (
        record s {
          incr =
              Assoc.insert property
                (record i { received = i.received ++ chunk; progress_at = now })
                s.incr;
        },
        more property,
      )
unfolding incr_push
incr_push_more property chunk now s i e full fits = ground arith

push_all_received :
    (property : ℕ) (chunks : List (ℕ × Bytes)) (s : Selection) (i : IncrRecv)
    → Assoc.get property s.incr ≡ some i
    → NonEmpty chunks
    → length i.received + length (joined chunks) ≤ max_selection_bytes
    → (t : Selection) × (j : IncrRecv) × (push_all property chunks s ≡ some t)
      × (Assoc.get property t.incr ≡ some j)
      × (j.fetch ≡ i.fetch)
      × (j.received ≡ i.received ++ joined chunks)
push_all_received property [] s i e h fits = (s, i, refl, e, refl, sym (append-nil i.received))
push_all_received property ((now, chunk) ∷ chunks) s i e h fits =
    let i' : IncrRecv = record i { received = i.received ++ chunk; progress_at = now } in
    let s' : Selection = record s { incr = Assoc.insert property i' s.incr } in
    let split = length-append chunk (joined chunks) in
    let step : incr_push property chunk now s ≡ some (s', more property) =
      incr_push_more property chunk now s i e h.0 (omega (arith, split)) in
    let here : Assoc.get property s'.incr ≡ some i' =
      ground (arith, get-insert property property i' s.incr) in
    let (t, j, p, got, same, r) =
      push_all_received property chunks s' i' here h.1
        (omega (arith, split, length-append i.received chunk)) in
    (t, j, rw (step, push_all) p, got, same, r ∙ append_assoc i.received chunk (joined chunks))

-- A value sent in chunks, none of them empty and within the cap in all, is assembled whole: after the
-- empty chunk that ends the transfer, the fetch it was for and the concatenation of the chunks are returned,
-- and the property is no longer received on.
pub chunks_round_trip :
    (fetch : Fetch) (begun ended fetch_window : ℕ) (chunks : List (ℕ × Bytes)) (s : Selection)
    → NonEmpty chunks
    → length (joined chunks) ≤ max_selection_bytes
    → (t u : Selection) × (push_all fetch.property chunks (begin_incr fetch begun s) ≡ some t)
      × (incr_push fetch.property [] ended t ≡ some (u, done fetch (joined chunks)))
      × (incr_chunk fetch_window fetch_window fetch.property u ≡ false)
unfolding begin_incr incr_push incr_chunk
chunks_round_trip fetch begun ended fetch_window chunks s h fits =
    let i : IncrRecv = record { fetch = fetch; received = []; progress_at = begun } in
    let begun' : Selection = begin_incr fetch begun s in
    let here : Assoc.get fetch.property begun'.incr ≡ some i =
      ground (arith, get-insert fetch.property fetch.property i s.incr) in
    let (t, j, p, got, same, r) =
      push_all_received fetch.property chunks begun' i here h (omega arith) in
    (
      t,
      record t { incr = Assoc.remove fetch.property t.incr },
      p,
      ground arith,
      ground (arith, get-remove fetch.property fetch.property t.incr),
    )

abbrev pub Capped : List (ℕ × IncrRecv) → Type 0
Capped [] = Unit
Capped ((k, i) ∷ m) = (length i.received ≤ max_selection_bytes) × Capped m

Capped-insert :
    (k : ℕ) (i : IncrRecv) (m : List (ℕ × IncrRecv))
    → length i.received ≤ max_selection_bytes
    → Capped m
    → Capped (Assoc.insert k i m)
Capped-insert k i [] h c = (h, tt)
Capped-insert k i ((j, w) ∷ m) h c = ground (arith, Capped-insert k i m h c.1)

Capped-remove : (k : ℕ) (m : List (ℕ × IncrRecv)) → Capped m → Capped (Assoc.remove k m)
Capped-remove k [] c = tt
Capped-remove k ((j, w) ∷ m) c = ground (arith, Capped-remove k m c.1)

-- No chunk makes a receive outgrow the cap: one that would is not taken, and ends the transfer.
pub incr_push-Capped :
    (property : ℕ) (chunk : Bytes) (now : ℕ) (s t : Selection) (r : IncrStep)
    → Capped s.incr
    → incr_push property chunk now s ≡ some (t, r)
    → Capped t.incr
unfolding incr_push
incr_push-Capped property chunk now s t r c h = elim (Option-cases (Assoc.get property s.incr)) [
  | inl e ↦ ground arith
  | inr (i, e) ↦ ground (
    arith,
    Capped-remove property s.incr c,
    Capped-insert property (record i { received = i.received ++ chunk; progress_at = now }) s.incr,
    length-append i.received chunk,
  )
]
