-- ===== src/Gt06/Frame/Consume.antt =====
-- A successful `readMessage` takes one frame off the stream, no byte more, and keeps it in the buffer.
use gpstracker_backend.Base.{
  ℕ, ◌+◌, ◌-◌, ◌≤◌, Option, none, some, List, [], ◌∷◌, ◌++◌, map, length, get_or, take, drop, ltb,
  ltb→le, Bool-cases, inl, inr, ◌==◌, ◌≡◌, refl, sym, ap, ◌∙◌, arith, take-append,
}
use gpstracker_backend.Base.Go.{
  Error, ok, Input, byte, read_full, read_full_takes, copy_at, overlay-append, length-overlay,
}
use gpstracker_backend.Gt06.Message.{Message}
use gpstracker_backend.Gt06.Frame.{
  Outcome, finish_frame, after_body, read_body, read_kind, after_head, read_message,
}
use gpstracker_backend.Gt06.Frame.Read.{filled_twice}

-- `t` is what was read behind the first four bytes.
record Body (s : List Input) (buf : List ℕ) (out : Outcome) : Type 0 where
  t : List ℕ
  taken : s ≡ map byte t ++ out.0
  counted : length t + 4 ≡ out.1.length
  stored : out.1.buffer ≡ copy_at buf 4 t
  fits : out.1.length ≤ length buf

finish_frame_keeps :
    (s : List Input) (m : Message) (l off : ℕ)
    → let out = finish_frame s m l off in
      (out.0 ≡ s) × (out.1.buffer ≡ m.buffer) × (out.1.length ≡ m.length)
unfolding finish_frame
finish_frame_keeps s m l off = (ground arith, ground arith, ground arith)

after_body_ok :
    (r : List ℕ × List Input × Option Error) (m : Message) (l off : ℕ)
    → (after_body r m l off).2 ≡ ok tt
    → let out = after_body r m l off in
      (r.2 ≡ none)
      × (out.0 ≡ r.1)
      × (out.1.buffer ≡ copy_at m.buffer 4 r.0)
      × (out.1.length ≡ m.length)
unfolding after_body
after_body_ok (bs, s, some e) m l off h = cc
after_body_ok (bs, s, none) m l off h =
    let (a, b, c) = finish_frame_keeps s (record m { buffer = copy_at m.buffer 4 bs }) l off in
    (refl, a, b, c)

read_body-Body :
    (s : List Input) (m : Message) (l off : ℕ)
    → 4 ≤ m.length
    → (read_body s m l off).2 ≡ ok tt
    → Body s m.buffer (read_body s m l off)
unfolding read_body
read_body-Body s m l off h4 h = elim (Bool-cases (ltb (length m.buffer) m.length)) [
  | inl small ↦ cc (rw small at h)
  | inr fits ↦ rw fits (
      let (a, b, c, d) = after_body_ok (read_full s (m.length - 4)) m l off (rw fits at h) in
      let (same, len) = read_full_takes s (m.length - 4) a in
      record {
        t = (read_full s (m.length - 4)).0;
        taken = same ∙ ap (λ u. map byte (read_full s (m.length - 4)).0 ++ u) (sym b);
        counted = omega arith;
        stored = c;
        fits = omega (arith, ltb→le (length m.buffer) m.length fits);
      })
]

read_kind-Body :
    (s : List Input) (m : Message) → (read_kind s m).2 ≡ ok tt → Body s m.buffer (read_kind s m)
unfolding read_kind
read_kind-Body s m h = elim (Bool-cases (get_or m.buffer 0 0 == 0x78)) [
  | inl short ↦ rw short (read_body-Body s _ _ 3 (omega arith) (rw short at h))
  | inr other ↦ elim (Bool-cases (get_or m.buffer 1 0 == 0x79)) [
    | inl long ↦ rw (other, long) (read_body-Body s _ _ 4 (omega arith) (rw (other, long) at h))
    | inr neither ↦ cc (rw (other, neither) at h)
  ]
]

-- Four bytes, then the body.
assemble :
    (s s1 : List Input) (four buf : List ℕ) (out : Outcome)
    → s ≡ map byte four ++ s1
    → length four ≡ 4
    → 4 ≤ length buf
    → Body s1 (copy_at buf 0 four) out
    → s ≡ map byte (take out.1.length out.1.buffer) ++ out.0
assemble s s1 (b0 ∷ b1 ∷ b2 ∷ b3 ∷ []) buf out same len h v =
    same
    ∙ ap (λ u. byte b0 ∷ byte b1 ∷ byte b2 ∷ byte b3 ∷ u) v.taken
    ∙ ap (λ u. map byte u ++ out.0) (sym front)
  where
    head : List ℕ
    head = b0 ∷ b1 ∷ b2 ∷ b3 ∷ []

    room : 4 + length v.t ≤ length buf
    room = omega (arith, v.counted, v.fits, length-overlay buf head)

    front : take out.1.length out.1.buffer ≡ head ++ v.t
    front =
        ap (take out.1.length) (
          v.stored
          ∙ ap (λ u. copy_at u 4 v.t) (overlay-append buf head h)
          ∙ filled_twice buf b0 b1 b2 b3 v.t room)
        ∙ take-append out.1.length (head ++ v.t) (drop (length (head ++ v.t)) buf)
            (omega (arith, v.counted))
assemble s s1 _ buf out same len h v = absurd (omega arith)

after_head-takes :
    (s : List Input) (r : List ℕ × List Input × Option Error) (m : Message)
    → 4 ≤ length m.buffer
    → (r.2 ≡ none → (s ≡ map byte r.0 ++ r.1) × (length r.0 ≡ 4))
    → (after_head r m).2 ≡ ok tt
    → s ≡ map byte (take (after_head r m).1.length (after_head r m).1.buffer) ++ (after_head r m).0
unfolding after_head
after_head-takes s (bs, s1, some e) m hb rd h = cc
after_head-takes s (bs, s1, none) m hb rd h =
    assemble s s1 bs m.buffer _ (rd refl).0 (rd refl).1 hb (read_kind-Body s1 _ h)

-- When `readMessage` succeeds, what has left the stream is exactly the frame in the buffer.
pub read_message_takes :
    (s : List Input) (m : Message)
    → (read_message s m).2 ≡ ok tt
    → let (s', m', _) = read_message s m in s ≡ map byte (take m'.length m'.buffer) ++ s'
unfolding read_message
read_message_takes s m h = elim (Bool-cases (ltb (length m.buffer) 4)) [
  | inl small ↦ cc (rw small at h)
  | inr fits ↦
      rw fits (
        after_head-takes s (read_full s 4) m (ltb→le _ _ fits) (read_full_takes s 4) (rw fits at h))
]
