-- ===== src/Gt06/Frame/RoundTrip.antt =====
-- `readMessage` reads back what `newFrame` wrote.
use mathlib.Core.List.{append_assoc, map-append}
use native.Mathlib.Nat.{mod-eq_of_lt}
use gpstracker_backend.Base.{
  ℕ, zero, suc, ◌+◌, ◌-◌, ◌*◌, ◌/◌, ◌%◌, ◌^◌, ◌≤◌, ◌<◌, some, List, [], ◌∷◌, ◌++◌, map, length,
  get_or, take, drop, ◌≡◌, refl, ap, ◌∙◌, arith, All, length-append, get_or-append_left,
  get_or-append_right, take-append, length-drop,
}
use gpstracker_backend.Base.Go.{ok, err, panic, Input, byte}
use gpstracker_backend.Gt06.Message.{Message, payload_of}
use gpstracker_backend.Gt06.Frame.{Outcome, finish_frame, read_message, new_frame}
use gpstracker_backend.Gt06.Frame.Shape.{framed, covered, new_frame-framed}
use gpstracker_backend.Gt06.Frame.Read.{filled, loaded, read_message-loaded}

-- The message after a frame of this payload has been accepted.
abbrev pub accepted : Message → ℕ → List ℕ → ℕ → List ℕ → Message
accepted m protocol payload serial frame = record m {
  protocol = protocol;
  length = length payload + 10;
  serial = serial;
  payload = some (4, 4 + length payload);
  buffer = filled frame m.buffer;
}

finish_frame-accepts :
    (m : Message) (rest : List Input) (l p s1 s0 : ℕ)
    → 5 ≤ l
    → m.length ≡ l + 5
    → get_or m.buffer (l + 5 - 2) 0 ≡ 0x0d
    → get_or m.buffer (l + 5 - 1) 0 ≡ 0x0a
    → get_or m.buffer 3 0 ≡ p
    → get_or m.buffer (3 + (l - 4)) 0 ≡ s1
    → get_or m.buffer (3 + (l - 3)) 0 ≡ s0
    → finish_frame rest m l 3 ≡ (
      rest,
      record m { protocol = p; payload = some (3 + 1, 3 + (l - 4)); serial = s1 * 256 + s0 },
      ok tt,
    )
unfolding finish_frame
finish_frame-accepts m rest l p s1 s0 h e a b c d f = ground arith

-- Byte `k` behind the payload.
at_tail :
    (h0 h1 h2 h3 : ℕ) (payload tail r : List ℕ) (i k : ℕ)
    → i ≡ 4 + length payload + k
    → k < length tail
    → get_or ((h0 ∷ h1 ∷ h2 ∷ h3 ∷ (payload ++ tail)) ++ r) i 0 ≡ get_or tail k 0
at_tail h0 h1 h2 h3 payload tail r i k e h =
    get_or-append_left (h0 ∷ h1 ∷ h2 ∷ h3 ∷ (payload ++ tail)) r i 0
      (omega (arith, length-append payload tail))
    ∙ get_or-append_right (h0 ∷ h1 ∷ h2 ∷ h3 ∷ payload) tail i k 0 (omega arith)

-- Any two bytes in the place of the checksum will do.
pub read_message-framed :
    (m : Message) (protocol : ℕ) (payload : List ℕ) (serial c1 c0 : ℕ) (rest : List Input)
    → length payload ≤ 250
    → length payload + 10 ≤ length m.buffer
    → let frame = framed protocol payload serial c1 c0 in
      read_message (map byte frame ++ rest) m
      ≡ (rest, accepted m protocol payload (serial % 2 ^ 16) frame, ok tt)
read_message-framed m protocol payload serial c1 c0 rest h hb =
    read_message-loaded m 0x78 l protocol (payload ++ tail) rest
      (omega (arith, length-append payload tail)) (omega arith)
    ∙ finish_frame-accepts (loaded m l frame) rest l protocol (word / 256 % 256) (word % 256)
        (omega arith) refl (behind 4 (l + 5 - 2) (omega arith) (omega arith))
        (behind 5 (l + 5 - 1) (omega arith) (omega arith)) refl
        (behind 0 (3 + (l - 4)) (omega arith) (omega arith))
        (behind 1 (3 + (l - 3)) (omega arith) (omega arith))
    ∙ ap (λ n. outcome n (3 + (l - 4)) (word / 256 % 256 * 256 + word % 256)) (omega arith)
    ∙ ap (λ k. outcome (length payload + 10) k (word / 256 % 256 * 256 + word % 256)) (omega arith)
    ∙ ap (outcome (length payload + 10) (4 + length payload)) (omega arith)
  where
    l : ℕ
    l = (length payload + 5) % 256

    word : ℕ
    word = serial % 2 ^ 16

    tail : List ℕ
    tail = word / 256 % 256 ∷ word % 256 ∷ c1 ∷ c0 ∷ 0x0d ∷ 0x0a ∷ []

    frame : List ℕ
    frame = framed protocol payload serial c1 c0

    outcome : ℕ → ℕ → ℕ → Outcome
    outcome n k s = (
      rest,
      record m {
        protocol = protocol;
        length = n;
        serial = s;
        payload = some (4, k);
        buffer = filled frame m.buffer;
      },
      ok tt,
    )

    behind :
        (k i : ℕ)
        → i ≡ 4 + length payload + k
        → k < 6
        → get_or (filled frame m.buffer) i 0 ≡ get_or tail k 0
    behind k i e lt =
        at_tail 0x78 0x78 l protocol payload tail (drop (length frame) m.buffer) i k e lt

-- The payload that `readMessage` hands on is the one that was framed.
pub payload_of-accepted :
    (m : Message) (protocol : ℕ) (payload : List ℕ) (serial c1 c0 : ℕ)
    → (payload_of
        (accepted m protocol payload (serial % 2 ^ 16) (framed protocol payload serial c1 c0))).vis
      ≡ payload
payload_of-accepted m protocol payload serial c1 c0 =
    ap (take (4 + length payload - 4))
      (append_assoc payload _ (drop (length (framed protocol payload serial c1 c0)) m.buffer))
    ∙ take-append (4 + length payload - 4) payload _ (omega arith)

module _ (checksum : List ℕ → ℕ) where
  -- What a frame of at most 250 payload bytes carries comes back, with the serial as a uint16, and
  -- the stream stands behind the frame; whatever the message and its buffer held before.
  pub read_message-new_frame :
      (m : Message) (protocol : ℕ) (payload : List ℕ) (serial : ℕ) (rest : List Input)
      → length payload ≤ 250
      → length payload + 10 ≤ length m.buffer
      → let out = read_message (map byte (new_frame checksum protocol payload serial) ++ rest) m in
        (out.0 ≡ rest)
        × (out.2 ≡ ok tt)
        × (out.1.protocol ≡ protocol)
        × (out.1.serial ≡ serial % 2 ^ 16)
        × ((payload_of out.1).vis ≡ payload)
  read_message-new_frame m protocol payload serial rest h hb =
      let crc = checksum (covered protocol payload serial) in
      rw
        (
          new_frame-framed checksum protocol payload serial,
          read_message-framed m protocol payload serial (crc / 256 % 256) (crc % 256) rest h hb,
        )
        (
          refl,
          refl,
          refl,
          refl,
          payload_of-accepted m protocol payload serial (crc / 256 % 256) (crc % 256),
        )

abbrev pub Packet : Type 0
Packet = ℕ × List ℕ × ℕ

module _ (checksum : List ℕ → ℕ) where
  -- Frames one behind the other.
  unfoldable pub send_all : List Packet → List ℕ
  send_all [] = []
  send_all ((protocol, payload, serial) ∷ ps) =
      new_frame checksum protocol payload serial ++ send_all ps

abbrev take_up : (List Input → Message → List Packet) → Outcome → List Packet
take_up next (s, m, ok _) = (m.protocol, (payload_of m).vis, m.serial) ∷ next s m
take_up next (s, m, err e) = []
take_up next (s, m, panic) = []

-- Up to `n` calls of `readMessage`, until one fails.
unfoldable pub receive : ℕ → List Input → Message → List Packet
receive zero s m = []
receive (suc n) s m = take_up (receive n) (read_message s m)

abbrev pub Fits : ℕ → Packet → Type 0
Fits bufsize (protocol, payload, serial) =
    (length payload ≤ 250) × (length payload + 10 ≤ bufsize) × (serial < 2 ^ 16)

module _ (checksum : List ℕ → ℕ) where
  -- The equation that `read_message-new_frame` takes apart.
  pub read_message-accepted :
      (m : Message) (protocol : ℕ) (payload : List ℕ) (serial : ℕ) (rest : List Input)
      → length payload ≤ 250
      → length payload + 10 ≤ length m.buffer
      → (c1 c0 : ℕ) × (new_frame checksum protocol payload serial
          ≡ framed protocol payload serial c1 c0)
        × (read_message (map byte (new_frame checksum protocol payload serial) ++ rest) m ≡ (
          rest,
          accepted m protocol payload (serial % 2 ^ 16) (framed protocol payload serial c1 c0),
          ok tt,
        ))
  read_message-accepted m protocol payload serial rest h hb =
      let crc = checksum (covered protocol payload serial) in
      (
        crc / 256 % 256,
        crc % 256,
        new_frame-framed checksum protocol payload serial,
        rw (new_frame-framed checksum protocol payload serial)
            (read_message-framed m protocol payload serial (crc / 256 % 256) (crc % 256) rest h hb),
      )

pub length-filled :
    (frame buf : List ℕ) → length frame ≤ length buf → length (filled frame buf) ≡ length buf
length-filled frame buf h =
    omega (arith, length-append frame (drop (length frame) buf), length-drop (length frame) buf)

pub length-framed :
    (protocol : ℕ) (payload : List ℕ) (serial c1 c0 : ℕ)
    → length (framed protocol payload serial c1 c0) ≡ length payload + 10
length-framed protocol payload serial c1 c0 =
    let word = serial % 2 ^ 16 in
    omega
      (arith, length-append payload (word / 256 % 256 ∷ word % 256 ∷ c1 ∷ c0 ∷ 0x0d ∷ 0x0a ∷ []))

module _ (checksum : List ℕ → ℕ) where
  -- A stream of frames, each of at most 250 payload bytes, of a uint16 serial and no longer than the
  -- buffer, is received as the packets that were sent, in order and none lost, whatever follows.
  pub receive-send_all :
      (ps : List Packet) (m : Message) (rest : List Input)
      → All (Fits (length m.buffer)) ps
      → receive (length ps) (map byte (send_all checksum ps) ++ rest) m ≡ ps
  unfolding receive send_all
  receive-send_all [] m rest h = refl
  receive-send_all ((protocol, payload, serial) ∷ ps) m rest ((hl, hb, hs), h) =
      let more : List Input = map byte (send_all checksum ps) ++ rest in
      let (c1, c0, _, read) = read_message-accepted checksum m protocol payload serial more hl hb in
      let frame = framed protocol payload serial c1 c0 in
      let m' = accepted m protocol payload (serial % 2 ^ 16) frame in
      ap (λ t. take_up (receive (length ps)) (read_message t m))
        (ap (λ t. t ++ rest)
            (map-append byte (new_frame checksum protocol payload serial) (send_all checksum ps))
          ∙ append_assoc (map byte (new_frame checksum protocol payload serial))
              (map byte (send_all checksum ps)) rest)
      ∙ ap (take_up (receive (length ps))) read
      ∙ ap (λ t. (protocol, t, serial % 2 ^ 16) ∷ receive (length ps) more m')
          (payload_of-accepted m protocol payload serial c1 c0)
      ∙ ap (λ t. (protocol, payload, t) ∷ receive (length ps) more m') (mod-eq_of_lt hs)
      ∙ ap (λ t. (protocol, payload, serial) ∷ t)
          (receive-send_all ps m' rest (
            rw
              (length-filled frame m.buffer
                (omega (arith, length-framed protocol payload serial c1 c0)))
              h))
