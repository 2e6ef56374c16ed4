-- ===== src/Gt06/Frame/Bounds.antt =====
-- What `readMessage` keeps on every stream: the size of the buffer, the payload inside it, and no
-- byte taken from the stream beyond the frame.
use gpstracker_backend.Base.{
  ℕ, ◌+◌, ◌-◌, ◌*◌, ◌≤◌, true, Option, none, some, List, length, get_or, ltb, ltb→le, Bool-cases,
  inl, inr, ◌≡◌, refl, ◌∙◌, arith,
}
use gpstracker_backend.Base.Go.{Error, err, Input, read_full, length-copy_at}
use gpstracker_backend.Gt06.Message.{Message, new_message}
use gpstracker_backend.Gt06.Frame.{
  finish_frame, after_body, read_body, read_kind, after_head, read_message,
}

abbrev pub InBuffer : ℕ → Option (ℕ × ℕ) → Type 0
InBuffer n none = Unit
InBuffer n (some (lo, hi)) = (lo ≤ hi) × (hi ≤ n)

-- A message whose buffer has `n` bytes and whose payload lies inside it.
pub record IsMessage (n : ℕ) (m : Message) : Type 0 where
  pub sized : length m.buffer ≡ n
  pub inside : InBuffer n m.payload

module _ (n : ℕ) where
  finish_frame-IsMessage :
      (s : List Input) (m : Message) (l off : ℕ)
      → off + l + 2 ≤ n
      → IsMessage n m
      → IsMessage n (finish_frame s m l off).1
  unfolding finish_frame
  finish_frame-IsMessage s m l off h v = ground arith

  after_body-IsMessage :
      (r : List ℕ × List Input × Option Error) (m : Message) (l off : ℕ)
      → off + l + 2 ≤ n
      → IsMessage n m
      → IsMessage n (after_body r m l off).1
  unfolding after_body
  after_body-IsMessage (bs, s, some e) m l off h v = record {
    sized = length-copy_at m.buffer bs 4 ∙ v.sized;
    inside = v.inside;
  }
  after_body-IsMessage (bs, s, none) m l off h v =
      finish_frame-IsMessage s _ l off h
        (record { sized = length-copy_at m.buffer bs 4 ∙ v.sized; inside = v.inside })

  read_body-IsMessage :
      (s : List Input) (m : Message) (l off : ℕ)
      → off + l + 2 ≤ m.length
      → IsMessage n m
      → IsMessage n (read_body s m l off).1
  unfolding read_body
  read_body-IsMessage s m l off h v = elim (Bool-cases (ltb (length m.buffer) m.length)) [
    | inl small ↦ rw small v
    | inr fits ↦ rw fits (
        after_body-IsMessage (read_full s (m.length - 4)) m l off
          (omega (arith, ltb→le (length m.buffer) m.length fits, v.sized)) v)
  ]

  read_kind-IsMessage :
      (s : List Input) (m : Message) → IsMessage n m → IsMessage n (read_kind s m).1
  unfolding read_kind
  read_kind-IsMessage s m v =
      let at = λ (i : ℕ). get_or m.buffer i 0 in
      let l = at 2 * 256 + at 3 in
      ground (
        arith,
        read_body-IsMessage s (record m { length = at 2 + 5 }) (at 2) 3,
        read_body-IsMessage s (record m { length = l + 6; extended = true }) l 4,
      )

  after_head-IsMessage :
      (r : List ℕ × List Input × Option Error) (m : Message)
      → IsMessage n m
      → IsMessage n (after_head r m).1
  unfolding after_head
  after_head-IsMessage (bs, s, some e) m v = record {
    sized = length-copy_at m.buffer bs 0 ∙ v.sized;
    inside = v.inside;
  }
  after_head-IsMessage (bs, s, none) m v =
      read_kind-IsMessage s _
        (record { sized = length-copy_at m.buffer bs 0 ∙ v.sized; inside = v.inside })

-- On every stream, and whatever the outcome, the buffer keeps its size and the payload stays inside it.
pub read_message-IsMessage :
    (n : ℕ) (s : List Input) (m : Message) → IsMessage n m → IsMessage n (read_message s m).1
unfolding read_message
read_message-IsMessage n s m v = ground (arith, after_head-IsMessage n (read_full s 4) m)

-- `NewMessage` makes a buffer of length 0 whatever size it is asked for, and nothing can be read
-- into it: the stream stays as it is.
pub new_message_unusable :
    (bufsize : ℕ) (s : List Input)
    → read_message s (new_message bufsize) ≡ (s, new_message bufsize, err Error.buffer_too_small)
unfolding read_message new_message
new_message_unusable bufsize s = refl
