-- ===== src/Clip/Transitions/Readers.antt =====
-- What readers are told of a selection.
use xwlrvnc.Base.{◌≡◌, ◌⊎◌, inl, inr, refl, [], none, some, arith, Option-cases, ==_refl}
use xwlrvnc.Clip.Types.{Sel, DataOffer, Bytes}
use xwlrvnc.Clip.State.{
  XOwner, Owner, nobody, wayland, x, Clipboard, sel_of, owner_window_id, text_mimes, nothing, here,
  from_wayland, owner_window, convertible, offer_at, value,
}

-- What readers are told of a selection, by who owns it.
abbrev pub IsAgreed : Sel → Clipboard → Type 0
IsAgreed sel c =
    let s = sel_of sel c in
    let reported = owner_window sel c in
    let (mimes, generation) = convertible sel c in
    let offered = offer_at sel generation c in
    ((s.owner ≡ nobody)
      × (reported ≡ none)
      × (value sel c ≡ nothing)
      × (mimes ≡ [])
      × (offered ≡ none))
    ⊎ ((o : XOwner) × (s.owner ≡ x o)
        × (o.value ≡ none)
        × (reported ≡ some o.window)
        × (value sel c ≡ nothing)
        × (mimes ≡ [])
        × (offered ≡ none))
    ⊎ ((o : XOwner) × (bytes : Bytes) × (s.owner ≡ x o)
        × (o.value ≡ some bytes)
        × (reported ≡ some o.window)
        × (value sel c ≡ here bytes)
        × (mimes ≡ text_mimes)
        × (offered ≡ none))
    ⊎ ((offer : DataOffer) × (s.owner ≡ wayland offer mimes)
        × (reported ≡ some owner_window_id)
        × (value sel c ≡ from_wayland)
        × (offered ≡ some offer))

-- Who is reported as the owner, what can be converted and where a value comes from agree, in four cases: nobody
-- owns the selection, no window is reported and there is nothing to serve; or an X owner whose value is not there,
-- reported by its window, with nothing to serve; or an X owner's bytes, offered as text; or a Wayland app's
-- offer, with the mime types it came with, behind our own window.
pub readers_agree : (sel : Sel) (c : Clipboard) → IsAgreed sel c
unfolding value convertible owner_window offer_at
readers_agree sel c = agree (sel_of sel c).owner refl
  where
    agree : (o : Owner) → (sel_of sel c).owner ≡ o → IsAgreed sel c
    agree nobody e = inl (ground arith)
    agree (wayland offer mimes) e = inr (
        inr (
          inr (
            offer,
            ground arith,
            ground arith,
            ground arith,
            ground (arith, ==_refl (sel_of sel c).generation),
          )))
    agree (x o) e = elim (Option-cases o.value) [
      | inl missing ↦
          inr (inl (o, e, missing, ground arith, ground arith, ground arith, ground arith))
      | inr (bytes, held) ↦
          inr
            (inr (inl (o, bytes, e, held, ground arith, ground arith, ground arith, ground arith)))
    ]
