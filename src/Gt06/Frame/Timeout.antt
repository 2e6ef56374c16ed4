-- ===== src/Gt06/Frame/Timeout.antt =====
-- A deadline that passes before a frame begins leaves the message as it was.
use gpstracker_backend.Base.{◌≤◌, ◌≡◌, refl, List, [], ◌∷◌, length, le→ltb, ℕ}
use gpstracker_backend.Base.Go.{timeout, err, Input, late, read_full, read_bytes, overlay}
use gpstracker_backend.Gt06.Message.{Message}
use gpstracker_backend.Gt06.Frame.{read_message, after_head}

overlay-nil : (buf : List ℕ) → overlay buf [] ≡ buf
overlay-nil [] = refl
overlay-nil (x ∷ buf) = refl

-- A deadline that passes before the first byte of a frame: only that is taken off the stream, and
-- the message keeps what was read before.
pub read_message-late :
    (s : List Input) (m : Message)
    → 4 ≤ length m.buffer
    → read_message (late ∷ s) m ≡ (s, m, err timeout)
unfolding read_message after_head read_full read_bytes
read_message-late s m h =
    rw (le→ltb (length m.buffer) 4 h)
      (λ i. (s, record m { buffer = overlay-nil m.buffer i }, err timeout))
