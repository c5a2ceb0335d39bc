-- ===== src/Examples/Fetching.antt =====
-- Concrete states of a connection that fetches selections.
use xwlrvnc.Base.{
  ℕ, ◌+◌, ◌≤◌, ◌≡◌, refl, ◌⊎◌, Bool, false, none, some, List, [], ◌∷◌, arith, ◌==◌, ltb, length,
  tally, is_empty,
}
use xwlrvnc.Clip.Types.{Bytes, clipboard}
use xwlrvnc.X11.Selection.Fetches.{begin_fetch_conserves, outstanding}
use xwlrvnc.X11.Selection.Chunks.{chunks_round_trip, joined, push_all}
use xwlrvnc.X11.Selection.Deadlines.{next_deadline_exact}
use xwlrvnc.X11.Selection.{
  Fetch, Selection, begin_fetch, begin_incr, done, expired, incr_chunk, incr_push, max_fetches,
  next_deadline,
}

abbrev asked : Fetch
asked = record {
  kind = clipboard;
  selection = 1;
  property = 401;
  owner = 7;
  time = 90;
  since = 1000;
}

-- An unanswered request, and a chunked receive on the property that it asks for.
abbrev fetching : Selection
fetching = record {
  owners = [];
  fetches = record asked { property = 402 } ∷ [];
  incr = (401, record { fetch = asked; received = b'a' ∷ []; progress_at = 2000 }) ∷ [];
}

abbrev on_clipboard : Fetch → Bool
on_clipboard f = f.selection == 1

-- After one chunk more.
abbrev grown : Selection
grown = record fetching {
  incr = (401, record { fetch = asked; received = b'a' ∷ b'b' ∷ []; progress_at = 2100 }) ∷ [];
}

abbrev chunks : List (ℕ × Bytes)
chunks = (2000, b'a' ∷ b'b' ∷ []) ∷ (2100, b'c' ∷ []) ∷ []

begin_fetch_conserves_example :
    let (t, displaced) = begin_fetch asked fetching in
    (tally on_clipboard displaced + tally on_clipboard (outstanding t)
      ≡ tally on_clipboard (asked ∷ []) + tally on_clipboard (outstanding fetching))
    × (length t.fetches ≤ max_fetches)
begin_fetch_conserves_example = begin_fetch_conserves on_clipboard asked fetching (refl, tt)

chunks_round_trip_example :
    (t u : Selection) × (push_all asked.property chunks (begin_incr asked 1000 fetching) ≡ some t)
    × (incr_push asked.property [] 3000 t ≡ some (u, done asked (joined chunks)))
    × (incr_chunk 365 365 asked.property u ≡ false)
chunks_round_trip_example =
    chunks_round_trip asked 1000 3000 365 chunks fetching (refl, (refl, tt)) (omega arith)

next_deadline_exact_example :
    ((next_deadline fetching ≡ none) × (fetching.fetches ≡ []) × (fetching.incr ≡ []))
    ⊎ ((deadline : ℕ) × (next_deadline fetching ≡ some deadline)
        × (is_empty (expired 11500 fetching).1 ≡ ltb 11500 deadline))
next_deadline_exact_example = next_deadline_exact 11500 fetching
