-- ===== src/SimpleJson/Frame/Arrived.antt =====
-- `readMessage` of internal/gpsv2/device/simplejson/frame.go on a frame that has arrived whole.
use gpstracker_backend.Base.{
  Option, none, some, ltb, ℕ, ◌+◌, ◌-◌, ◌*◌, ◌≤◌, ◌≡◌, refl, ap, ◌∙◌, List, [], ◌∷◌, ◌++◌, map,
  length, get_or, take, drop, ◌==◌, if◌then◌else◌, arith, inl, inr, Bool-cases, le→ltb,
  length-append, length-drop, append_assoc, get_or-append_right, take-append,
}
use gpstracker_backend.Base.Go.{
  Error, read_full, copy_at, length-copy_at, bad_frame, Result, ok, err, Input, byte, read_full-map,
  overlay-append,
}
use gpstracker_backend.Gt06.Frame.Read.{filled_twice}
use gpstracker_backend.SimpleJson.Frame.{
  FrameMessage, shown, finish, after_body, read_body, read_kind, after_head, read_message,
}

abbrev pub frame_of : ℕ → ℕ → ℕ → List ℕ → ℕ → List ℕ
frame_of protocol low high payload last = 0x99 ∷ protocol ∷ low ∷ high ∷ (payload ++ last ∷ [])

-- The payload, which must fit the length field and the buffer, is accepted behind a line feed, and
-- refused behind any other byte.
abbrev pub JsonVerdict : FrameMessage → Result (Unit {0}) → ℕ → List ℕ → ℕ → Type 0
JsonVerdict m r protocol payload last =
    if last == 0x0a
    then (r ≡ ok tt) × (m.protocol ≡ protocol) × (shown m.payload m.buffer ≡ payload)
    else (r ≡ err bad_frame)

finish-JsonVerdict :
    (rest : List Input) (m : FrameMessage) (protocol low high : ℕ) (payload more : List ℕ)
    (last : ℕ)
    → m.buffer ≡ frame_of protocol low high payload last ++ more
    → m.length ≡ length payload + 5
    → m.protocol ≡ protocol
    → let out = finish rest m in (out.0 ≡ rest) × JsonVerdict out.1 out.2 protocol payload last
unfolding finish
finish-JsonVerdict rest m protocol low high payload more last hb hl hp =
    elim (Bool-cases (last == 0x0a)) [
      | inl y ↦ rw (last_byte, y) (refl, (refl, hp, window))
      | inr n ↦ rw (last_byte, n) (refl, refl)
    ]
  where
    at_end :
        (i : ℕ)
        → i ≡ length payload + 4
        → get_or (frame_of protocol low high payload last ++ more) i 0 ≡ last
    at_end i e =
        get_or-append_right (0x99 ∷ protocol ∷ low ∷ high ∷ []) ((payload ++ last ∷ []) ++ more) i
          (length payload) 0 (omega arith)
        ∙ ap (λ r. get_or r (length payload) 0) (append_assoc payload (last ∷ []) more)
        ∙ get_or-append_right payload (last ∷ more) (length payload) 0 0 (omega arith)

    last_byte : get_or m.buffer (m.length - 1) 0 ≡ last
    last_byte = ap (λ b. get_or b (m.length - 1) 0) hb ∙ at_end (m.length - 1) (omega arith)

    window : take (m.length - 1 - 4) (drop 4 m.buffer) ≡ payload
    window =
        ap (λ b. take (m.length - 1 - 4) (drop 4 b)) hb
        ∙ ap (take (m.length - 1 - 4)) (append_assoc payload (last ∷ []) more)
        ∙ take-append (m.length - 1 - 4) payload (last ∷ more) (omega arith)

-- A frame whose length field is that of its payload and which fits a buffer of at least five bytes is
-- taken off the stream; its payload is shown when its last byte is a line feed, and it is a bad
-- frame otherwise.
pub read_message-JsonVerdict :
    (m : FrameMessage) (protocol low high : ℕ) (payload : List ℕ) (last : ℕ) (rest : List Input)
    → low + high * 256 ≡ length payload
    → length payload + 5 ≤ length m.buffer
    → let out = read_message (map byte (frame_of protocol low high payload last) ++ rest) m in
      (out.0 ≡ rest) × JsonVerdict out.1 out.2 protocol payload last
unfolding read_message after_head read_kind read_body after_body
read_message-JsonVerdict m protocol low high payload last rest hl hb =
    let body : List ℕ = payload ++ last ∷ [] in
    let four : List ℕ = 0x99 ∷ protocol ∷ low ∷ high ∷ [] in
    let long : length body ≡ length payload + 1 =
      omega (arith, length-append payload (last ∷ [])) in
    rw
      (
        le→ltb (length m.buffer) 5 (omega arith),
        read_full-map four (map byte body ++ rest) 4 refl,
        overlay-append m.buffer four (omega arith),
      )
      (rw
        (
          le→ltb (length (four ++ drop 4 m.buffer)) (low + high * 256 + 5)
              (omega (arith, length-drop 4 m.buffer)),
          read_full-map body rest (low + high * 256 + 5 - 4) (omega arith),
        )
        (finish-JsonVerdict rest _ protocol low high payload
          (drop (length (frame_of protocol low high payload last)) m.buffer) last
          (filled_twice m.buffer 0x99 protocol low high body (omega arith)) (omega arith) refl))

finish_buffer : (s : List Input) (m : FrameMessage) → length (finish s m).1.buffer ≡ length m.buffer
unfolding finish
finish_buffer s m = ground arith

after_body_buffer :
    (r : List ℕ × List Input × Option Error) (m : FrameMessage)
    → length (after_body r m).1.buffer ≡ length m.buffer
unfolding after_body
after_body_buffer (bs, s, some e) m = length-copy_at m.buffer bs 4
after_body_buffer (bs, s, none) m =
    finish_buffer s (record m { buffer = copy_at m.buffer 4 bs }) ∙ length-copy_at m.buffer bs 4

read_kind_buffer :
    (s : List Input) (m : FrameMessage) → length (read_kind s m).1.buffer ≡ length m.buffer
unfolding read_kind read_body
read_kind_buffer s m = elim (Bool-cases (get_or m.buffer 0 0 == 0x99)) [
  | inr n ↦ rw n refl
  | inl y ↦ rw y (
      let l = get_or m.buffer 2 0 + get_or m.buffer 3 0 * 256 + 5 in
      elim (Bool-cases (ltb (length m.buffer) l)) [
        | inl small ↦ rw small refl
        | inr fits ↦ rw fits (after_body_buffer (read_full s (l - 4)) _)
      ])
]

after_head_buffer :
    (r : List ℕ × List Input × Option Error) (m : FrameMessage)
    → length (after_head r m).1.buffer ≡ length m.buffer
unfolding after_head
after_head_buffer (bs, s, some e) m = length-copy_at m.buffer bs 0
after_head_buffer (bs, s, none) m =
    read_kind_buffer s (record m { buffer = copy_at m.buffer 0 bs }) ∙ length-copy_at m.buffer bs 0

-- Whatever arrives, the buffer keeps its size.
pub read_message_buffer :
    (s : List Input) (m : FrameMessage) → length (read_message s m).1.buffer ≡ length m.buffer
unfolding read_message
read_message_buffer s m = elim (Bool-cases (ltb (length m.buffer) 5)) [
  | inl small ↦ rw small refl
  | inr fits ↦ rw fits (after_head_buffer (read_full s 4) m)
]
