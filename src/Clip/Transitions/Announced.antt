-- ===== src/Clip/Transitions/Announced.antt =====
-- What comes of an announcement of the compositor: the echo of our own publication, or another app's offer.
use Prim.Native.String.{String}
use Prim.Native.Nat.Ordering.{gt}
use xwlrvnc.Base.{
  ℕ, ◌<◌, ◌≡◌, refl, true, false, List, [], ◌∷◌, Option, none, some, is_some, arith, if◌then◌else◌,
}
use xwlrvnc.Base.Word.{u32_mod, u64_mod}
use xwlrvnc.Event.Time.{server_time_ms, time_cmp, note_selection_time}
use xwlrvnc.Clip.Types.{Sel, clipboard, primary, DataOffer, Bytes, Job}
use xwlrvnc.Clip.State.{
  x, XOwner, Clipboard, sel_of, mimes_eq, text_mimes, value, here, nothing, from_wayland, wayland,
  owner_window, convertible, offer_at, take_echo, is_ours, next_timestamp, x_owner, into_offer,
  owner_window_id,
}
use xwlrvnc.Clip.Transitions.{
  Effects, no_effects, stale, acquisition, x_fetched, publish, supersede, wayland_announced, x_took,
}
use xwlrvnc.Clip.Jobs.{post}

server_time-lt : (now floor : ℕ) → floor < u32_mod → server_time_ms now floor < u32_mod
unfolding server_time_ms
server_time-lt now floor h = ground arith

-- For 32-bit times, the time of a change that the compositor announced is after the last change recorded on either
-- selection, whatever the clock reads: two changes within one millisecond are pushed apart.
pub next_timestamp_after :
    (now : ℕ) (c : Clipboard)
    → c.last_timestamp < u32_mod
    → c.floor < u32_mod
    → let (d, at) = next_timestamp now c in
      (time_cmp at c.last_timestamp ≡ gt)
      × (d.last_timestamp ≡ at)
      × (d.floor ≡ note_selection_time at c.floor)
      × (at < u32_mod)
unfolding next_timestamp
next_timestamp_after now c h f = ground (arith, server_time-lt now c.floor f)

own_mimes : mimes_eq text_mimes text_mimes ≡ true
own_mimes = refl

-- After the value `bytes` of the X owner `o` was published: the state `d` as the compositor's announcement of an
-- offer with our own mime types finds it, and a second such announcement.
abbrev pub IsEchoed :
    Sel → XOwner → Bytes → DataOffer → DataOffer → Clipboard → Clipboard → ℕ → ℕ → Type 0
IsEchoed sel o bytes offer other c d first second =
    let (e, fx) = wayland_announced sel (some offer) text_mimes first d in
    let (f, gx) = wayland_announced sel (some other) text_mimes second e in
    ((sel_of sel e).owner ≡ x (record o { value = some bytes }))
    × ((sel_of sel e).generation ≡ (sel_of sel c).generation)
    × ((sel_of sel e).last_changed ≡ (sel_of sel c).last_changed)
    × (value sel e ≡ here bytes)
    × (fx ≡ record no_effects { destroy = offer ∷ [] })
    × ((sel_of sel f).owner ≡ wayland other text_mimes)
    × (gx.cleared ≡ some (record o { value = some bytes }))

-- A value that is published comes back as an announcement of our own mime types. If the value of the current X owner
-- was fetched, the compositor's device carries the selection, no echo was owed before and the job was taken by the queue, then the first such
-- announcement changes nothing: the X client stays the owner, under the same generation and time, its bytes
-- are served, nobody is told, and the offer is to be destroyed. A second one, with the same
-- mime types, is another app's: its offer owns the selection, and the X client is told.
pub x_fetched-IsEchoed :
    (sel : Sel) (window time : ℕ) (bytes : Bytes) (now later : ℕ) (o : XOwner)
    (offer other : DataOffer) (first second : ℕ) (c : Clipboard)
    → acquisition (sel_of sel c).owner window time ≡ some o
    → (sel_of sel c).publishable ≡ true
    → (sel_of sel c).echoes ≡ []
    → (post now (Job.publish sel (some bytes)) c.jobs).1 ≡ true
    → IsEchoed sel o bytes offer other c
        (x_fetched sel window time bytes now later c).0
        first
        second
unfolding x_fetched publish wayland_announced take_echo supersede next_timestamp value
x_fetched-IsEchoed clipboard window time bytes now later o offer other first second c h p e j =
    ground (arith, own_mimes)
x_fetched-IsEchoed primary window time bytes now later o offer other first second c h p e j =
    ground (arith, own_mimes)

-- The state `d` and the effects `fx` of an announcement of another app, made in the state `c`; `later` is when an
-- X client's request comes.
abbrev pub IsSuperseded :
    Sel → Option DataOffer → List String → Clipboard → Clipboard × Effects → ℕ → ℕ → ℕ → Type 0
IsSuperseded sel offer mimes c (d, fx) later window client =
    (time_cmp fx.at c.last_timestamp ≡ gt)
    × ((sel_of sel d).last_changed ≡ fx.at)
    × ((x_took sel window client c.last_timestamp later d).1 ≡ stale)
    × (offer_at sel (convertible sel c).1 d ≡ none)
    × (offer_at sel (convertible sel d).1 d ≡ offer)
    × ((convertible sel d).0 ≡ (if is_some offer then mimes else []))
    × (value sel d ≡ (if is_some offer then from_wayland else nothing))
    × (owner_window sel d ≡ (if is_some offer then some owner_window_id else none))
    × ((sel_of sel d).echoes ≡ (sel_of sel c).echoes)
    × ((sel_of sel d).published ≡ false)
    × (fx.cleared ≡ x_owner (sel_of sel c).owner)
    × (fx.destroy ≡ into_offer (sel_of sel c).owner)

-- An announcement that is not the echo owed next is a change of owner. For times and generations within their widths: it is
-- dated after the last change recorded on either selection, so that an X client's claim with that time is ignored
-- from then on; work prepared for the selection before finds no offer; and readers are told of the offer, with its
-- mime types and behind our own window, or of no owner if there is none. The echoes stay owed and nothing
-- counts as published; an X owner it displaces is told, and an offer it displaces is to be destroyed.
pub foreign_supersedes :
    (sel : Sel) (offer : Option DataOffer) (mimes : List String) (now later window client : ℕ)
    (c : Clipboard)
    → is_ours (sel_of sel c).echoes (is_some offer) mimes ≡ false
    → c.last_timestamp < u32_mod
    → c.floor < u32_mod
    → (sel_of sel c).generation < u64_mod
    → IsSuperseded sel offer mimes c (wayland_announced sel offer mimes now c) later window client
unfolding wayland_announced take_echo supersede next_timestamp x_took offer_at convertible value
    owner_window
foreign_supersedes clipboard none mimes now later window client c foreign t f g =
    ground (arith, next_timestamp_after now c t f)
foreign_supersedes clipboard (some offer) mimes now later window client c foreign t f g =
    ground (arith, next_timestamp_after now c t f)
foreign_supersedes primary none mimes now later window client c foreign t f g =
    ground (arith, next_timestamp_after now c t f)
foreign_supersedes primary (some offer) mimes now later window client c foreign t f g =
    ground (arith, next_timestamp_after now c t f)
