-- ===== src/SimpleJson/Frame/Progress.antt =====
-- A successful `readMessage` of internal/gpsv2/device/simplejson/frame.go uses up some of the stream.
use gpstracker_backend.Base.{
  ℕ, ◌+◌, ◌-◌, ◌*◌, ◌≤◌, ◌≡◌, refl, ap, ◌∙◌, List, map, length, get_or, Option, none, some, ltb,
  ◌==◌, arith, inl, inr, Bool-cases, length-append, length-map,
}
use gpstracker_backend.Base.Go.{Error, ok, Input, byte, read_full, read_full_takes, copy_at}
use gpstracker_backend.Gt06.Frame.Progress.{read_full_le}
use gpstracker_backend.SimpleJson.Frame.{
  FrameMessage, finish, after_body, read_body, read_kind, after_head, read_message,
}

finish_le : (s : List Input) (m : FrameMessage) → length (finish s m).0 ≤ length s
unfolding finish
finish_le s m = ground arith

after_body_le :
    (r : List ℕ × List Input × Option Error) (m : FrameMessage)
    → length (after_body r m).0 ≤ length r.1
unfolding after_body
after_body_le (bs, s, some e) m = omega arith
after_body_le (bs, s, none) m = finish_le s (record m { buffer = copy_at m.buffer 4 bs })

read_body_le : (s : List Input) (m : FrameMessage) → length (read_body s m).0 ≤ length s
unfolding read_body
read_body_le s m = elim (Bool-cases (ltb (length m.buffer) m.length)) [
  | inl y ↦ rw y (omega arith)
  | inr n ↦
      rw n
        (omega (arith, after_body_le (read_full s (m.length - 4)) m, read_full_le s (m.length - 4)))
]

abbrev sized : FrameMessage → FrameMessage
sized m = record m {
  protocol = get_or m.buffer 1 0;
  length = get_or m.buffer 2 0 + get_or m.buffer 3 0 * 256 + 5;
}

read_kind_le : (s : List Input) (m : FrameMessage) → length (read_kind s m).0 ≤ length s
unfolding read_kind
read_kind_le s m = elim (Bool-cases (get_or m.buffer 0 0 == 0x99)) [
  | inl y ↦ rw y (read_body_le s (sized m))
  | inr n ↦ rw n (omega arith)
]

after_head_le :
    (r : List ℕ × List Input × Option Error) (m : FrameMessage)
    → (after_head r m).2 ≡ ok tt
    → (length (after_head r m).0 ≤ length r.1) × (r.2 ≡ none)
unfolding after_head
after_head_le (bs, s, some e) m h = cc
after_head_le (bs, s, none) m h =
    (read_kind_le s (record m { buffer = copy_at m.buffer 0 bs }), refl)

-- A successful read takes four bytes at least.
pub read_message_four :
    (s : List Input) (m : FrameMessage)
    → (read_message s m).2 ≡ ok tt
    → length (read_message s m).0 + 4 ≤ length s
unfolding read_message
read_message_four s m = elim (Bool-cases (ltb (length m.buffer) 5)) [
  | inl small ↦ rw small (λ h. cc)
  | inr fits ↦ rw fits (λ h.
      let (le, good) = after_head_le (read_full s 4) m h in
      let (same, four) = read_full_takes s 4 good in
      omega (
        arith,
        le,
        ap length same ∙ length-append (map byte (read_full s 4).0) (read_full s 4).1,
        length-map byte (read_full s 4).0,
        four,
      ))
]
