-- ===== src/Start/Handles/Invariant.antt =====
-- The streams that are open, over any sequence of opening and closing.
use mathlib.Core.Path.{subst}
use tcluvc.Prelude.{
  ℕ, zero, suc, ◌≡◌, ◌≢◌, inl, inr, sym, Bool, true, false, none, some, List, [], ◌∷◌, ◌++◌,
  get_elem?, ◌==◌, arith, Bool-cases, Option-cases,
}
use tcluvc.Usb.{Usb, is_zero}
use tcluvc.Descriptors.{StreamingInterface}
use tcluvc.StreamCtrl.Wire.{StreamCtrl}
use tcluvc.StreamCtrl.Query.{stream_ctrl}
use tcluvc.Claims.{claim_if, release_if}
use tcluvc.Start.Handles.{
  OpenStream, DeviceHandle, get_stream_by_interface, get_stream_if, no_ctrl, remove_at,
  stream_open_ctrl, stream_close,
}

-- No stream of the list is on the interface.
pub data AllOther (idx : ℕ) : List OpenStream → Type 0 where
  no_others : AllOther idx []
  other_then :
      {s : OpenStream} {ss : List OpenStream}
      → s.interface_number ≢ idx
      → AllOther idx ss
      → AllOther idx (s ∷ ss)

-- Every stream is on an interface that is claimed, and on one of its own.
pub data IsConsistent (claimed : ℕ → Bool) : List OpenStream → Type 0 where
  no_streams : IsConsistent claimed []
  stream_then :
      {s : OpenStream} {ss : List OpenStream}
      → claimed s.interface_number ≡ true
      → AllOther s.interface_number ss
      → IsConsistent claimed ss
      → IsConsistent claimed (s ∷ ss)

none-AllOther :
    (idx : ℕ) (ss : List OpenStream) → get_stream_by_interface ss idx ≡ none → AllOther idx ss
unfolding get_stream_by_interface
none-AllOther idx [] e = no_others
none-AllOther idx (s ∷ ss) e =
    other_then (ground (arith, e)) (none-AllOther idx ss (ground (arith, e)))

AllOther-append :
    (idx : ℕ) (ss : List OpenStream) (t : OpenStream)
    → AllOther idx ss
    → t.interface_number ≢ idx
    → AllOther idx (ss ++ (t ∷ []))
AllOther-append idx [] t no_others h = other_then h no_others
AllOther-append idx (s ∷ ss) t (other_then d all) h = other_then d (AllOther-append idx ss t all h)

AllOther-remove :
    (idx n : ℕ) (ss : List OpenStream) → AllOther idx ss → AllOther idx (remove_at ss n)
unfolding remove_at
AllOther-remove idx n [] no_others = no_others
AllOther-remove idx zero (s ∷ ss) (other_then d all) = all
AllOther-remove idx (suc n) (s ∷ ss) (other_then d all) =
    other_then d (AllOther-remove idx n ss all)

-- A stream behind the others, on an interface that is claimed.
IsConsistent-append :
    (claimed claimed' : ℕ → Bool) (ss : List OpenStream) (t : OpenStream)
    → IsConsistent claimed ss
    → ((j : ℕ) → claimed j ≡ true → claimed' j ≡ true)
    → claimed' t.interface_number ≡ true
    → AllOther t.interface_number ss
    → IsConsistent claimed' (ss ++ (t ∷ []))
IsConsistent-append claimed claimed' [] t no_streams keeps new free =
    stream_then new no_others no_streams
IsConsistent-append claimed claimed' (s ∷ ss) t (stream_then c others all) keeps new
      (other_then d free) =
    stream_then (keeps s.interface_number c)
      (AllOther-append s.interface_number ss t others (λ e. d (sym e)))
      (IsConsistent-append claimed claimed' ss t all keeps new free)

IsConsistent-mono :
    (claimed claimed' : ℕ → Bool) (ss : List OpenStream)
    → IsConsistent claimed ss
    → ((j : ℕ) → claimed j ≡ true → claimed' j ≡ true)
    → IsConsistent claimed' ss
IsConsistent-mono claimed claimed' [] no_streams keeps = no_streams
IsConsistent-mono claimed claimed' (s ∷ ss) (stream_then c others all) keeps =
    stream_then (keeps s.interface_number c) others
      (IsConsistent-mono claimed claimed' ss all keeps)

elem_other :
    (idx n : ℕ) (ss : List OpenStream) (s : OpenStream)
    → AllOther idx ss
    → get_elem? ss n ≡ some s
    → s.interface_number ≢ idx
elem_other idx n [] s no_others e = absurd (ground (arith, e))
elem_other idx zero (x ∷ ss) s (other_then d all) e = λ same. d (ground (arith, e, same))
elem_other idx (suc n) (x ∷ ss) s (other_then d all) e = elem_other idx n ss s all e

IsConsistent-others :
    (claimed claimed' : ℕ → Bool) (idx : ℕ) (ss : List OpenStream)
    → AllOther idx ss
    → IsConsistent claimed ss
    → ((j : ℕ) → j ≢ idx → claimed j ≡ true → claimed' j ≡ true)
    → IsConsistent claimed' ss
IsConsistent-others claimed claimed' idx [] no_others no_streams keeps = no_streams
IsConsistent-others claimed claimed' idx (s ∷ ss) (other_then d free) (stream_then c others all)
      keeps =
    stream_then (keeps s.interface_number d c) others
      (IsConsistent-others claimed claimed' idx ss free all keeps)

-- The streams that stay keep their claims if only that of the stream removed is given up.
IsConsistent-remove :
    (claimed claimed' : ℕ → Bool) (n : ℕ) (ss : List OpenStream) (s : OpenStream)
    → IsConsistent claimed ss
    → get_elem? ss n ≡ some s
    → ((j : ℕ) → j ≢ s.interface_number → claimed j ≡ true → claimed' j ≡ true)
    → IsConsistent claimed' (remove_at ss n)
unfolding remove_at
IsConsistent-remove claimed claimed' n [] s no_streams e keeps = no_streams
IsConsistent-remove claimed claimed' zero (x ∷ ss) s (stream_then c others all) e keeps =
    IsConsistent-others claimed claimed' s.interface_number ss
      (subst (λ m. AllOther m ss) same others) all keeps
  where
    same : x.interface_number ≡ s.interface_number
    same = ground (arith, e)
IsConsistent-remove claimed claimed' (suc n) (x ∷ ss) s (stream_then c others all) e keeps =
    stream_then
      (keeps x.interface_number (λ same. elem_other x.interface_number n ss s others e (sym same))
        c)
      (AllOther-remove x.interface_number n ss others)
      (IsConsistent-remove claimed claimed' n ss s all e keeps)

module _ (usb : Usb) where
  claim_if_claims :
      (w : usb.World) (claimed : ℕ → Bool) (i : ℕ)
      → is_zero (claim_if usb w claimed i).0 ≡ true
      → (claim_if usb w claimed i).1 i ≡ true
  unfolding claim_if
  claim_if_claims w claimed i ok = ground (arith, ok)

  claim_if_keeps :
      (w : usb.World) (claimed : ℕ → Bool) (i j : ℕ)
      → claimed j ≡ true
      → (claim_if usb w claimed i).1 j ≡ true
  unfolding claim_if
  claim_if_keeps w claimed i j c = ground (arith, c)

  release_if_keeps :
      (w : usb.World) (claimed : ℕ → Bool) (i j : ℕ)
      → j ≢ i
      → claimed j ≡ true
      → (release_if usb w claimed i).1 j ≡ true
  unfolding release_if
  release_if_keeps w claimed i j d c = ground (arith, d, c)

  get_stream_if_number :
      (ss : List StreamingInterface) (idx : ℕ) (i : StreamingInterface)
      → get_stream_if ss idx ≡ some i
      → i.interface_number ≡ idx
  unfolding get_stream_if
  get_stream_if_number [] idx i e = absurd (ground (arith, e))
  get_stream_if_number (s ∷ ss) idx i e = elim (Bool-cases (s.interface_number == idx)) [
    | inl here ↦ ground (arith, e, here)
    | inr there ↦ get_stream_if_number ss idx i (ground (arith, e, there))
  ]

  open_found :
      (w : usb.World) (d : DeviceHandle) (c : StreamCtrl) (i : StreamingInterface)
      → IsConsistent d.claimed d.streams
      → get_stream_by_interface d.streams c.interface_number ≡ none
      → get_stream_if d.info.stream_ifs c.interface_number ≡ some i
      → IsConsistent (stream_open_ctrl usb w d c).1.claimed (stream_open_ctrl usb w d c).1.streams
  unfolding stream_open_ctrl
  open_found w d c i ok free here =
      elim (Bool-cases (is_zero (claim_if usb w d.claimed number).0)) [
        | inr refused ↦ rw (stream_open_ctrl, free, here, refused) kept
        | inl claims ↦
            elim (Bool-cases (
              is_zero
                (stream_ctrl usb (claim_if usb w d.claimed number).2 d.info number false no_ctrl
                  c).0)) [
                    | inr refused ↦ rw (stream_open_ctrl, free, here, claims, refused) kept
                    | inl set ↦
                        rw (stream_open_ctrl, free, here, claims, set)
                          (IsConsistent-append d.claimed (claim_if usb w d.claimed number).1
                            d.streams _ ok (claim_if_keeps w d.claimed number)
                            (claim_if_claims w d.claimed number claims)
                            (subst (λ m. AllOther m d.streams)
                              (sym
                                (get_stream_if_number d.info.stream_ifs c.interface_number i here))
                              (none-AllOther c.interface_number d.streams free)))
                  ]
      ]
    where
      number : ℕ
      number = i.interface_number

      kept : IsConsistent (claim_if usb w d.claimed number).1 d.streams
      kept =
          IsConsistent-mono d.claimed (claim_if usb w d.claimed number).1 d.streams ok
            (claim_if_keeps w d.claimed number)

  open_keeps :
      (w : usb.World) (d : DeviceHandle) (c : StreamCtrl)
      → IsConsistent d.claimed d.streams
      → IsConsistent (stream_open_ctrl usb w d c).1.claimed (stream_open_ctrl usb w d c).1.streams
  unfolding stream_open_ctrl
  open_keeps w d c ok = elim (Option-cases (get_stream_by_interface d.streams c.interface_number)) [
    | inr (s, e) ↦ rw (stream_open_ctrl, e) ok
    | inl free ↦ elim (Option-cases (get_stream_if d.info.stream_ifs c.interface_number)) [
      | inl e ↦ rw (stream_open_ctrl, free, e) ok
      | inr (i, here) ↦ open_found w d c i ok free here
    ]
  ]

  close_keeps :
      (w : usb.World) (d : DeviceHandle) (n : ℕ)
      → IsConsistent d.claimed d.streams
      → IsConsistent (stream_close usb w d n).0.claimed (stream_close usb w d n).0.streams
  unfolding stream_close
  close_keeps w d n ok = elim (Option-cases (get_elem? d.streams n)) [
    | inl e ↦ rw (stream_close, e) ok
    | inr (s, e) ↦
        rw (stream_close, e)
          (IsConsistent-remove d.claimed (release_if usb w d.claimed s.interface_number).1 n
            d.streams s ok e (release_if_keeps w d.claimed s.interface_number))
  ]

  -- The device handle and libusb's state after any calls that open and close streams.
  pub data Reachable (d : DeviceHandle) : usb.World → DeviceHandle → Type 0 where
    start : {w : usb.World} → Reachable d w d
    opens :
        {w : usb.World} {d' : DeviceHandle} (c : StreamCtrl)
        → Reachable d w d'
        → Reachable d (stream_open_ctrl usb w d' c).2 (stream_open_ctrl usb w d' c).1
    closes :
        {w : usb.World} {d' : DeviceHandle} (n : ℕ)
        → Reachable d w d'
        → Reachable d (stream_close usb w d' n).1 (stream_close usb w d' n).0

-- Whatever streams of a device are opened and closed, and whatever of it fails, the streams that are
-- open are on different interfaces, and each of them on one that is claimed, if it was so before.
pub Reachable-IsConsistent :
    (usb : Usb) (d d' : DeviceHandle) (w : usb.World)
    → IsConsistent d.claimed d.streams
    → Reachable usb d w d'
    → IsConsistent d'.claimed d'.streams
Reachable-IsConsistent usb d d' w ok start = ok
Reachable-IsConsistent usb d d' w ok (opens {w = v} {d' = e} c r) =
    open_keeps usb v e c (Reachable-IsConsistent usb d e v ok r)
Reachable-IsConsistent usb d d' w ok (closes {w = v} {d' = e} n r) =
    close_keeps usb v e n (Reachable-IsConsistent usb d e v ok r)
