-- ===== src/Wayland/DataControl/Loop/Held.antt =====
-- Who answers the X client that asked for a value: the queue, the transfer, or the answer it was given.
use Prim.Native.String.{String}
use xwlrvnc.Clip.Transitions
use xwlrvnc.Base.{
  ℕ, ◌+◌, ◌≡◌, refl, inl, inr, Option, none, some, List, [], ◌∷◌, arith, Option-cases,
  if◌then◌else◌,
}
use xwlrvnc.Clip.Types.{Bytes, DataOffer, Sel, clipboard, primary, publish}
use xwlrvnc.Clip.Jobs.Answers.{answered, post-settled, sweep-settled, waiting}
use xwlrvnc.Clip.State.{
  Clipboard, SelState, changed_at, enter, is_x, next_timestamp, nobody, put_sel, sel_of, take_echo,
  value, x,
}
use xwlrvnc.Clip.Transitions.{
  acquisition, supersede, wayland_announced, withdraw, x_fetch_failed, x_fetched, x_owner_gone,
  x_released, x_took,
}
use xwlrvnc.Wayland.DataControl.Loop.Calls.{
  XCall, fetch_fails, fetched, owner_goes, posts, releases, sweeps, takes, x_step,
}

-- How often the conversion `k` is queued or has been answered.
abbrev pub held : ℕ → Clipboard → ℕ
held k c = waiting k c.jobs.queue + answered k c.jobs.answers

publish-held :
    (k : ℕ) (sel : Sel) (value : Option Bytes) (now : ℕ) (c : Clipboard)
    → held k (Transitions.publish sel value now c) ≡ held k c
unfolding Transitions.publish
publish-held k clipboard value now c =
    ground (arith, post-settled k now (publish clipboard value) c.jobs)
publish-held k primary value now c =
    ground (arith, post-settled k now (publish primary value) c.jobs)

withdraw-held :
    (k : ℕ) (sel : Sel) (now : ℕ) (c : Clipboard) → held k (withdraw sel now c) ≡ held k c
unfolding withdraw
withdraw-held k sel now c = ground (arith, publish-held k sel none now c)

put_sel-held :
    (k : ℕ) (sel : Sel) (s : SelState) (c : Clipboard) → held k (put_sel sel s c) ≡ held k c
put_sel-held k clipboard s c = refl
put_sel-held k primary s c = refl

changed_at-held :
    (k : ℕ) (sel : Sel) (t : ℕ) (c : Clipboard) → held k (changed_at sel t c) ≡ held k c
unfolding changed_at
changed_at-held k clipboard t c = refl
changed_at-held k primary t c = refl

pub wayland_announced-held :
    (k : ℕ) (sel : Sel) (offer : Option DataOffer) (mimes : List String) (now : ℕ) (c : Clipboard)
    → held k (wayland_announced sel offer mimes now c).0 ≡ held k c
unfolding wayland_announced supersede next_timestamp take_echo
wayland_announced-held k clipboard offer mimes now c = ground arith
wayland_announced-held k primary offer mimes now c = ground arith

-- An X thread's call neither loses nor adds a conversion, but for the one it posts.
abbrev pub x_posted : ℕ → XCall → ℕ
x_posted k (posts now job) = waiting k (job ∷ [])
x_posted k call = 0

pub x_step-held :
    (k : ℕ) (call : XCall) (c : Clipboard) → held k (x_step call c) ≡ held k c + x_posted k call
unfolding x_step x_took x_released x_fetched x_fetch_failed x_owner_gone
x_step-held k (posts now job) c = omega (arith, post-settled k now job c.jobs)
x_step-held k (sweeps now) c = omega (arith, sweep-settled k now c.jobs)
x_step-held k (takes sel window client time now) c =
    let s = sel_of sel c in
    let owner = x (record { window = window; client = client; time = time; value = none }) in
    ground (
      arith,
      changed_at-held k sel time (put_sel sel (enter owner s) c),
      put_sel-held k sel (enter owner s) c,
    )
x_step-held k (releases sel time now later) c =
    let s = sel_of sel c in
    let released = if is_x s.owner then enter nobody s else s in
    let d = changed_at sel time (put_sel sel released c) in
    ground (
      arith,
      changed_at-held k sel time (put_sel sel released c),
      put_sel-held k sel released c,
      withdraw-held k sel later d,
    )
x_step-held k (fetched sel window time bytes now later) c =
    elim (Option-cases (acquisition (sel_of sel c).owner window time)) [
      | inl e ↦ ground arith
      | inr (o, e) ↦
          let s = record (sel_of sel c) { owner = x (record o { value = some bytes }) } in
          ground
            (arith, publish-held k sel (some bytes) now (put_sel sel s c), put_sel-held k sel s c)
    ]
x_step-held k (fetch_fails sel window time now later) c = ground (arith, withdraw-held k sel now c)
x_step-held k (owner_goes sel client window subtype now later) c =
    let s = put_sel sel (enter nobody (sel_of sel c)) c in
    ground (arith, withdraw-held k sel now s, put_sel-held k sel (enter nobody (sel_of sel c)) c)
