-- ===== src/Gt06/Frame/Runs.antt =====
-- Frames written and read, and the theorems of frame.go at concrete inputs.
use gpstracker_backend.Base.{ℕ, List, [], ◌∷◌, ◌++◌, map, take, replicate, ◌≡◌, refl, arith}
use gpstracker_backend.Base.Go.{ok, err, panic, unexpected_eof, timeout, byte, late, read_full}
use gpstracker_backend.Gt06.Message.{Message, blank}
use gpstracker_backend.Gt06.Frame.{read_message, new_frame}
use gpstracker_backend.Gt06.Frame.Read.{read_message-Verdict}
use gpstracker_backend.Gt06.Frame.RoundTrip.{Packet, send_all, receive, receive-send_all}
use gpstracker_backend.Gt06.Frame.Bounds.{IsMessage, read_message-IsMessage}

abbrev fresh : Message
fresh = blank (replicate 40 0)

-- The sum of one frame, which is the sum that the frame below carries.
abbrev one_sum : List ℕ → ℕ
one_sum d = 0xd9dc

-- The acknowledgement of a login with the serial 1, as the protocol's manual shows it.
login_ok : new_frame one_sum 1 [] 1 ≡ 0x78 ∷ 0x78 ∷ 5 ∷ 1 ∷ 0 ∷ 1 ∷ 0xd9 ∷ 0xdc ∷ 0x0d ∷ 0x0a ∷ []
unfolding new_frame
login_ok = refl

abbrev ack : List ℕ
ack = 0x78 ∷ 0x78 ∷ 5 ∷ 1 ∷ 0 ∷ 1 ∷ 0xd9 ∷ 0xdc ∷ 0x0d ∷ 0x0a ∷ []

ack_read : (read_message (map byte ack) fresh).2 ≡ ok tt
unfolding read_message read_full
ack_read = refl

-- A length field of 4 and a good trailer.
short_crashes :
    (read_message (map byte (0x78 ∷ 0x78 ∷ 4 ∷ 1 ∷ 0 ∷ 1 ∷ 0 ∷ 0x0d ∷ 0x0a ∷ [])) fresh).2 ≡ panic
unfolding read_message read_full
short_crashes = refl

cut_off : (read_message (map byte (take 7 ack)) fresh).2 ≡ err unexpected_eof
unfolding read_message read_full
cut_off = refl

deadline : (read_message (byte 0x78 ∷ late ∷ []) fresh).2 ≡ err timeout
unfolding read_message read_full
deadline = refl

read_message-Verdict_example :
    let out = read_message (map byte (0x78 ∷ 0x78 ∷ 4 ∷ 1 ∷ 0 ∷ 1 ∷ 0 ∷ 0x0d ∷ 0x0a ∷ [])) fresh in
    (out.0 ≡ []) × (out.2 ≡ panic)
read_message-Verdict_example =
    read_message-Verdict fresh 0x78 4 1 (0 ∷ 1 ∷ 0 ∷ 0x0d ∷ 0x0a ∷ []) [] (omega arith)
      (omega arith)

abbrev packets : List Packet
packets = (0x13, 1 ∷ 2 ∷ [], 1) ∷ (0x22, [], 2) ∷ (0x13, 9 ∷ [], 3) ∷ []

receive-send_all_example :
    receive 3 (map byte (send_all one_sum packets) ++ late ∷ []) fresh ≡ packets
receive-send_all_example = receive-send_all one_sum packets fresh (late ∷ []) (omega arith)

read_message-IsMessage_example :
    IsMessage 40 (read_message (byte 0x78 ∷ byte 0x78 ∷ late ∷ []) fresh).1
read_message-IsMessage_example =
    read_message-IsMessage 40 (byte 0x78 ∷ byte 0x78 ∷ late ∷ []) fresh
      (record { sized = refl; inside = tt })
