-- ===== src/Server/Arrival.antt =====
-- The login of a gt06 device in internal/gpsv2/server/server.go, from its frame to the list.
use gpstracker_backend.Base.{
  ℕ, ◌+◌, ◌%◌, ◌/◌, ◌^◌, ◌≤◌, ◌≡◌, refl, sym, ap, ◌∙◌, Bool, false, List, [], ◌∷◌, ◌++◌, map,
  length, drop, replicate, arith, All, length-drop, length-append, length-replicate,
}
use gpstracker_backend.Base.Go.{Result, ok, Input, byte, Slice}
use gpstracker_backend.Base.Strconv.{parse_uint, bcd_value, IsBcd}
use gpstracker_backend.Device.{new_serial}
use gpstracker_backend.Gt06.Message.{Message, blank, payload_of, login_message}
use gpstracker_backend.Gt06.Frame.{new_frame}
use gpstracker_backend.Gt06.Frame.Shape.{framed, covered, new_frame-framed}
use gpstracker_backend.Gt06.Frame.RoundTrip.{
  accepted, read_message-framed, payload_of-accepted, length-framed,
}
use gpstracker_backend.Gt06.Parser.{LoginMessage, parse_login_message}
use gpstracker_backend.Gt06.Parser.Login.{parse_login_message_total, parse_login_message-sn}
use gpstracker_backend.Server.{
  Database, Server, attach, acknowledge, with_number, with_login, with_message, handle_as_gt06,
}

append_nil : (xs : List ℕ) → xs ++ [] ≡ xs
append_nil [] = refl
append_nil (x ∷ xs) = ap (λ t. x ∷ t) (append_nil xs)

-- A payload of eight packed bytes in a buffer that goes on for two bytes more.
login_number :
    (bs : List ℕ) (d : Slice)
    → All IsBcd bs
    → length bs ≡ 8
    → d.vis ≡ bs
    → 2 ≤ length d.spare
    → (m : LoginMessage) × (parse_login_message d ≡ ok m)
      × (parse_uint 10 m.sn ≡ ok (bcd_value 0 bs))
login_number bs d digits eight same room =
    let (m, read) =
      (parse_login_message_total d (omega (arith, ap length same))).1
        (λ e. absurd (omega (arith, ap length same))) in
    (
      m,
      read,
      (parse_login_message-sn bs [] d.spare m digits eight (
          ap (λ v. parse_login_message (record { vis = v; spare = d.spare }))
            (append_nil bs ∙ sym same)
          ∙ read)).0,
    )

module _ {D : Type 0} (Q : Database D) where
  with_login_number :
      (serial sn : ℕ) (fault : Bool) (s : Server D) (r : Result LoginMessage) (m : LoginMessage)
      → r ≡ ok m
      → parse_uint 10 m.sn ≡ ok sn
      → with_login Q serial fault s r ≡ acknowledge Q serial sn fault s
  unfolding with_login with_number
  with_login_number serial sn fault s r m e p = rw (e, p) refl

  -- A login frame whose payload is eight bytes of packed digits, on a connection that takes the
  -- answer, is acknowledged under its serial, and the device with the IMEI of those digits is
  -- attached to the connection, whatever the stream has behind the frame.
  pub handle_as_gt06-new_frame :
      (bs : List ℕ) (serial : ℕ) (rest : List Input) (s : Server D)
      → All IsBcd bs
      → length bs ≡ 8
      → let (s', login) = attach Q (new_serial 0 (bcd_value 0 bs)) s in
        handle_as_gt06 Q
          (map byte (new_frame Q.checksum_x25 login_message bs serial) ++ rest)
          false
          s
        ≡ (s', login, new_frame Q.checksum_x25 login_message [] (serial % 2 ^ 16))
  unfolding handle_as_gt06 with_message acknowledge
  handle_as_gt06-new_frame bs serial rest s digits eight =
      let fresh : Message = blank (replicate 100 0) in
      let crc = Q.checksum_x25 (covered login_message bs serial) in
      let frame = framed login_message bs serial (crc / 256 % 256) (crc % 256) in
      let m : Message = accepted fresh login_message bs (serial % 2 ^ 16) frame in
      let (lm, read, number) =
        login_number bs (payload_of m) digits eight
          (payload_of-accepted fresh login_message bs serial (crc / 256 % 256) (crc % 256))
          (omega (
            arith,
            length-drop (4 + length bs) (frame ++ drop (length frame) (replicate 100 0)),
            length-append frame (drop (length frame) (replicate 100 0)),
            length-framed login_message bs serial (crc / 256 % 256) (crc % 256),
          )) in
      rw
        (
          new_frame-framed Q.checksum_x25 login_message bs serial,
          read_message-framed fresh login_message bs serial (crc / 256 % 256) (crc % 256) rest
              (omega arith) (omega (arith, length-replicate {A = ℕ} 100 0)),
        )
        (with_login_number (serial % 2 ^ 16) (bcd_value 0 bs) false s _ lm read number)
