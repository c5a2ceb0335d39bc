-- ===== src/Event/Time.antt =====
-- bridge/event/mod.rs: the server's clock and the comparison of timestamps across its wrap. The
-- static `TIME_FLOOR` is an argument; `clock` is the number of milliseconds since the start.
use Prim.Native.Nat.{Ordering}
use Prim.Native.Nat.Ordering.{lt, eq, gt}
use xwlrvnc.Base.{
  ℕ, ◌+◌, ◌%◌, ◌^◌, ◌<◌, ◌≤◌, max, ◌≡◌, ◌≢◌, Bool, true, false, ◌==◌, if◌then◌else◌, arith,
}
use xwlrvnc.Base.Word.{u32_mod, wrapping_sub32, nonneg32}

-- `(a.wrapping_sub(b) as i32).cmp(&0)`.
abbrev pub time_cmp : ℕ → ℕ → Ordering
time_cmp a b = let d = wrapping_sub32 a b in if d == 0 then eq else if nonneg32 d then gt else lt

abbrev pub is_gt : Ordering → Bool
is_gt gt = true
is_gt _ = false

abbrev pub is_lt : Ordering → Bool
is_lt lt = true
is_lt _ = false

-- The clock, held up at the floor.
unfoldable pub server_time_ms : ℕ → ℕ → ℕ
server_time_ms clock floor =
    let now = max (clock % u32_mod) 1 in if is_lt (time_cmp now floor) then floor else now

-- The new floor.
unfoldable pub note_selection_time : ℕ → ℕ → ℕ
note_selection_time ts floor = if is_gt (time_cmp ts floor) then ts else floor

-- From half the clock's range after the floor on, until the clock comes round to the floor again, every
-- reading is the floor: the clock stands still for twenty-four days, and at 0 if no time was noted.
pub server_time_stands :
    (floor d : ℕ)
    → floor < u32_mod
    → 2 ^ 31 ≤ d
    → d < u32_mod
    → server_time_ms (floor + d) floor ≡ floor
unfolding server_time_ms
server_time_stands floor d hf lo hi = ground arith

-- Once a time was noted, so that the floor is not 0, the clock never falls below the floor and never
-- reads 0.
pub server_time_floor :
    (clock floor : ℕ)
    → floor < u32_mod
    → 0 < floor
    → (time_cmp (server_time_ms clock floor) floor ≢ lt)
      × (0 < server_time_ms clock floor)
      × (server_time_ms clock floor < u32_mod)
unfolding server_time_ms
server_time_floor clock floor hf h0 = ground arith

-- Noting a time moves the floor forward only, and never leaves it before that time, unless the two
-- are half the clock's range apart.
pub note_selection_time_forward :
    (ts floor : ℕ)
    → ts < u32_mod
    → floor < u32_mod
    → wrapping_sub32 ts floor ≢ 2 ^ 31
    → (time_cmp (note_selection_time ts floor) floor ≢ lt)
      × (time_cmp (note_selection_time ts floor) ts ≢ lt)
unfolding note_selection_time
note_selection_time_forward ts floor ht hf h = ground arith
