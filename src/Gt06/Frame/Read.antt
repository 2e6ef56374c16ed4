-- ===== src/Gt06/Frame/Read.antt =====
-- `readMessage` on a frame that is all there: every outcome of a frame with one length byte.
use gpstracker_backend.Base.{
  ℕ, ◌+◌, ◌-◌, ◌≤◌, ◌<◌, List, [], ◌∷◌, ◌++◌, map, length, get_or, drop, ltb, ◌==◌, if◌then◌else◌,
  ◌≡◌, refl, ap, ◌∙◌, arith, le→ltb, length-drop, drop-drop, get_or-append_left, ◌&&◌,
}
use gpstracker_backend.Base.Go.{
  Result, ok, err, panic, bad_frame, Input, byte, read_full-map, copy_at, overlay-append,
}
use gpstracker_backend.Gt06.Message.{Message}
use gpstracker_backend.Gt06.Frame.{
  finish_frame, after_body, read_body, read_kind, after_head, read_message,
}

-- The buffer after a frame has been read into its front.
abbrev pub filled : List ℕ → List ℕ → List ℕ
filled frame buf = frame ++ drop (length frame) buf

-- The state at the check of the trailer.
abbrev pub loaded : Message → ℕ → List ℕ → Message
loaded m l frame = record m { length = l + 5; buffer = filled frame m.buffer }

read_body-loaded :
    (m : Message) (l off : ℕ) (t : List ℕ) (rest : List Input)
    → m.length ≤ length m.buffer
    → length t ≡ m.length - 4
    → read_body (map byte t ++ rest) m l off
      ≡ finish_frame rest (record m { buffer = copy_at m.buffer 4 t }) l off
unfolding read_body
read_body-loaded m l off t rest hb ht =
    rw (le→ltb (length m.buffer) m.length hb)
      (ap (λ r. after_body r m l off) (read_full-map t rest (m.length - 4) ht))

pub filled_twice :
    (buf : List ℕ) (b0 b1 b2 b3 : ℕ) (t : List ℕ)
    → 4 + length t ≤ length buf
    → copy_at (b0 ∷ b1 ∷ b2 ∷ b3 ∷ drop 4 buf) 4 t ≡ filled (b0 ∷ b1 ∷ b2 ∷ b3 ∷ t) buf
filled_twice buf b0 b1 b2 b3 t h =
    ap (λ r. b0 ∷ b1 ∷ b2 ∷ b3 ∷ r)
      (overlay-append (drop 4 buf) t (omega (arith, length-drop 4 buf))
        ∙ ap (◌++◌ t) (drop-drop 4 (length t) (length (b0 ∷ b1 ∷ b2 ∷ b3 ∷ t)) buf (omega arith)))

pub read_message-loaded :
    (m : Message) (b1 l b3 : ℕ) (t : List ℕ) (rest : List Input)
    → length t ≡ l + 1
    → l + 5 ≤ length m.buffer
    → read_message (map byte (0x78 ∷ b1 ∷ l ∷ b3 ∷ t) ++ rest) m
      ≡ finish_frame rest (loaded m l (0x78 ∷ b1 ∷ l ∷ b3 ∷ t)) l 3
unfolding read_message after_head read_kind
read_message-loaded m b1 l b3 t rest ht hb =
    let body : List Input = map byte t ++ rest in
    let four : List ℕ = 0x78 ∷ b1 ∷ l ∷ b3 ∷ [] in
    rw (le→ltb (length m.buffer) 4 (omega arith)) (
      ap (λ r. after_head r m) (read_full-map four body 4 refl)
      ∙ ap (λ b. read_kind body (record m { buffer = b }))
          (overlay-append m.buffer four (omega arith))
      ∙ read_body-loaded (record m { length = l + 5; buffer = four ++ drop 4 m.buffer }) l 3 t rest
          (omega (arith, length-drop 4 m.buffer)) (omega arith)
      ∙ ap (λ b. finish_frame rest (record m { length = l + 5; buffer = b }) l 3)
          (filled_twice m.buffer 0x78 b1 l b3 t (omega arith)))

-- What becomes of a whole frame: the trailer is looked at first, then the length.
abbrev pub Verdict : Result (Unit {0}) → ℕ → List ℕ → Type 0
Verdict r l frame =
    if get_or frame (l + 3) 0 == 0x0d && get_or frame (l + 4) 0 == 0x0a
    then (if ltb l 5 then r ≡ panic else r ≡ ok tt)
    else (r ≡ err bad_frame)

at_trailer :
    (frame r : List ℕ) (l i : ℕ)
    → length frame ≡ l + 5
    → i < 5
    → get_or (frame ++ r) (l + 5 - (5 - i)) 0 ≡ get_or frame (l + i) 0
at_trailer frame r l i h hi =
    get_or-append_left frame r (l + 5 - (5 - i)) 0 (omega arith)
    ∙ ap (λ (j : ℕ). get_or frame j 0) (omega arith)

finish_frame-Verdict :
    (m : Message) (l : ℕ) (frame : List ℕ) (rest : List Input)
    → length frame ≡ l + 5
    → let out = finish_frame rest (loaded m l frame) l 3 in (out.0 ≡ rest) × Verdict out.2 l frame
unfolding finish_frame
finish_frame-Verdict m l frame rest h = ground (
  arith,
  at_trailer frame (drop (length frame) m.buffer) l 3 h (omega arith),
  at_trailer frame (drop (length frame) m.buffer) l 4 h (omega arith),
)

-- A frame that begins with 78, has arrived whole and fits the buffer is taken off the stream, and
-- then: it is a bad frame if it does not end in 0D 0A; a panic if its length field is below 5; accepted otherwise.
pub read_message-Verdict :
    (m : Message) (b1 l b3 : ℕ) (t : List ℕ) (rest : List Input)
    → length t ≡ l + 1
    → l + 5 ≤ length m.buffer
    → let frame = 0x78 ∷ b1 ∷ l ∷ b3 ∷ t in
      let out = read_message (map byte frame ++ rest) m in (out.0 ≡ rest) × Verdict out.2 l frame
read_message-Verdict m b1 l b3 t rest ht hb =
    rw (read_message-loaded m b1 l b3 t rest ht hb)
      (finish_frame-Verdict m l (0x78 ∷ b1 ∷ l ∷ b3 ∷ t) rest (omega arith))
