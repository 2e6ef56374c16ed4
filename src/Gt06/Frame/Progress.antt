-- ===== src/Gt06/Frame/Progress.antt =====
-- Every call of `readMessage` uses up some of the stream, or ends in an error that stays.
use gpstracker_backend.Base.{
  ℕ, zero, suc, ◌+◌, ◌*◌, ◌-◌, ◌≤◌, ◌<◌, Option, none, some, List, [], ◌∷◌, length, ltb, ◌==◌,
  Bool-cases, true, inl, inr, ◌⊎◌, ◌≡◌, refl, arith, get_or,
}
use gpstracker_backend.Base.Go.{
  Error, eof, closed, buffer_too_small, Result, err, Input, byte, late, broken, read_bytes,
  read_full, copy_at,
}
use gpstracker_backend.Gt06.Message.{Message}
use gpstracker_backend.Gt06.Frame.{
  finish_frame, after_body, read_body, read_kind, after_head, read_message,
}

-- An error after which the next call can only end in an error.
abbrev pub Quits : Result (Unit {0}) → Type 0
Quits r = (r ≡ err eof) ⊎ (r ≡ err closed) ⊎ (r ≡ err buffer_too_small)

read_bytes_le : (s : List Input) (n : ℕ) → length (read_bytes s n).1 ≤ length s
unfolding read_bytes
read_bytes_le s zero = omega arith
read_bytes_le [] (suc n) = omega arith
read_bytes_le (late ∷ s) (suc n) = omega arith
read_bytes_le (broken ∷ s) (suc n) = omega arith
read_bytes_le (byte b ∷ s) (suc n) = omega (arith, read_bytes_le s n)

pub read_full_le : (s : List Input) (n : ℕ) → length (read_full s n).1 ≤ length s
unfolding read_full
read_full_le s n = read_bytes_le s n

-- A read of at least one byte.
pub read_full_lt :
    (s : List Input) (n : ℕ)
    → (length (read_full s (suc n)).1 < length s)
      ⊎ (((read_full s (suc n)).2 ≡ some eof) ⊎ ((read_full s (suc n)).2 ≡ some closed))
unfolding read_full read_bytes
read_full_lt [] n = inr (inl refl)
read_full_lt (late ∷ s) n = inl (omega arith)
read_full_lt (broken ∷ s) n = inr (inr refl)
read_full_lt (byte b ∷ s) n = inl (omega (arith, read_bytes_le s n))

finish_frame_le :
    (s : List Input) (m : Message) (l off : ℕ) → length (finish_frame s m l off).0 ≤ length s
unfolding finish_frame
finish_frame_le s m l off = ground arith

after_body_le :
    (r : List ℕ × List Input × Option Error) (m : Message) (l off : ℕ)
    → length (after_body r m l off).0 ≤ length r.1
unfolding after_body
after_body_le (bs, s, some e) m l off = omega arith
after_body_le (bs, s, none) m l off =
    finish_frame_le s (record m { buffer = copy_at m.buffer 4 bs }) l off

read_body_le :
    (s : List Input) (m : Message) (l off : ℕ) → length (read_body s m l off).0 ≤ length s
unfolding read_body
read_body_le s m l off = elim (Bool-cases (ltb (length m.buffer) m.length)) [
  | inl y ↦ rw y (omega arith)
  | inr n ↦ rw n (
      omega
        (arith, after_body_le (read_full s (m.length - 4)) m l off, read_full_le s (m.length - 4)))
]

abbrev long_length : Message → ℕ
long_length m = get_or m.buffer 2 0 * 256 + get_or m.buffer 3 0

read_kind_le : (s : List Input) (m : Message) → length (read_kind s m).0 ≤ length s
unfolding read_kind
read_kind_le s m = elim (Bool-cases (get_or m.buffer 0 0 == 0x78)) [
  | inl y ↦
      rw y (read_body_le s (record m { length = get_or m.buffer 2 0 + 5 }) (get_or m.buffer 2 0) 3)
  | inr n ↦ rw n (elim (Bool-cases (get_or m.buffer 1 0 == 0x79)) [
    | inl y ↦ rw y (
        read_body_le s (record m { length = long_length m + 6; extended = true }) (long_length m) 4)
    | inr k ↦ rw k (omega arith)
  ])
]

after_head_le :
    (r : List ℕ × List Input × Option Error) (m : Message) → length (after_head r m).0 ≤ length r.1
unfolding after_head
after_head_le (bs, s, some e) m = omega arith
after_head_le (bs, s, none) m = read_kind_le s (record m { buffer = copy_at m.buffer 0 bs })

after_head_err :
    (r : List ℕ × List Input × Option Error) (m : Message) (e : Error)
    → r.2 ≡ some e
    → (after_head r m).2 ≡ err e
unfolding after_head
after_head_err (bs, s, some d) m e h = cc
after_head_err (bs, s, none) m e h = cc

-- Every call of `readMessage` takes something off the stream, or its error stays: the end of the
-- stream, a broken connection or a buffer of less than four bytes.
pub read_message_progress :
    (s : List Input) (m : Message)
    → (length (read_message s m).0 < length s) ⊎ Quits (read_message s m).2
unfolding read_message
read_message_progress s m = elim (Bool-cases (ltb (length m.buffer) 4)) [
  | inl small ↦ rw small (inr (inr (inr refl)))
  | inr fits ↦ rw fits (elim (read_full_lt s 3) [
    | inl less ↦ inl (omega (arith, after_head_le (read_full s 4) m))
    | inr (inl e) ↦ inr (inl (after_head_err (read_full s 4) m eof e))
    | inr (inr e) ↦ inr (inr (inl (after_head_err (read_full s 4) m closed e)))
  ])
]
