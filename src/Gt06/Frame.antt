-- ===== src/Gt06/Frame.antt =====
-- internal/gpsv2/device/gt06/frame.go, and `newFrame` and `newCommand` of parser.go.
pub mod Shape
pub mod Read
pub mod RoundTrip
pub mod Bounds
pub mod Consume
pub mod Progress
pub mod Timeout
mod Runs
use gpstracker_backend.Base.{
  ℕ, zero, suc, ◌+◌, ◌-◌, ◌*◌, ◌/◌, ◌%◌, ◌^◌, Bool, true, false, not, ◌||◌, Option, none, some,
  List, [], ◌∷◌, length, get_or, set, take, drop, replicate, ltb, ◌==◌, if◌then◌else◌,
}
use gpstracker_backend.Base.Go.{
  Error, buffer_too_small, bad_frame, Result, ok, err, panic, Input, read_full, copy_at,
}
use gpstracker_backend.Gt06.Message.{Message, server_command}

abbrev pub Outcome : Type 0
Outcome = List Input × Message × Result (Unit {0})

-- From the check of the trailer on: `l` is the length field, and `off` is where `var_buf` begins.
pub finish_frame : List Input → Message → ℕ → ℕ → Outcome
finish_frame s m l off =
    let at = λ (i : ℕ). get_or m.buffer i 0 in
    if not (at (m.length - 2) == 0x0d) || not (at (m.length - 1) == 0x0a)
    then (s, m, err bad_frame)
    else if ltb l 5
    then (s, record m { protocol = at off }, panic)
    else (
      s,
      record m {
        protocol = at off;
        payload = some (off + 1, off + (l - 4));
        serial = at (off + (l - 4)) * 256 + at (off + (l - 3));
      },
      ok tt,
    )

after_body : List ℕ × List Input × Option Error → Message → ℕ → ℕ → Outcome
unfolding finish_frame
after_body (bs, s, some e) m l off = (s, record m { buffer = copy_at m.buffer 4 bs }, err e)
after_body (bs, s, none) m l off =
    finish_frame s (record m { buffer = copy_at m.buffer 4 bs }) l off

-- From the second check of the buffer on.
read_body : List Input → Message → ℕ → ℕ → Outcome
unfolding after_body
read_body s m l off =
    if ltb (length m.buffer) m.length
    then (s, m, err buffer_too_small)
    else after_body (read_full s (m.length - 4)) m l off

-- From the check of the start bytes on.
read_kind : List Input → Message → Outcome
unfolding read_body
read_kind s m =
    let at = λ (i : ℕ). get_or m.buffer i 0 in
    if at 0 == 0x78
    then read_body s (record m { length = at 2 + 5 }) (at 2) 3
    else if at 1 == 0x79
    then (let l = at 2 * 256 + at 3 in
        read_body s (record m { length = l + 6; extended = true }) l 4)
    else (s, m, err bad_frame)

after_head : List ℕ × List Input × Option Error → Message → Outcome
unfolding read_kind
after_head (bs, s, some e) m = (s, record m { buffer = copy_at m.buffer 0 bs }, err e)
after_head (bs, s, none) m = read_kind s (record m { buffer = copy_at m.buffer 0 bs })

unfoldable pub read_message : List Input → Message → Outcome
unfolding after_head
read_message s m =
    if ltb (length m.buffer) 4 then (s, m, err buffer_too_small) else after_head (read_full s 4) m

-- `binary.BigEndian.PutUint16(buf[i:], v)`
put_u16 : List ℕ → ℕ → ℕ → List ℕ
put_u16 buf i v = set (set buf i (v / 256 % 256)) (i + 1) (v % 256)

-- `checksum` is `crc16.Checksum(crc16.X25, d)` of internal/util/crc16, a copy of another library.
module _ (checksum : List ℕ → ℕ) where
  -- The last lines of `newFrame`: the checksum of what stands there, and the trailer.
  seal : List ℕ → ℕ → List ℕ
  unfolding put_u16
  seal frame lf =
      let crc = checksum (take (lf - 6) (drop 2 frame)) in
      set (set (put_u16 frame (lf - 4) crc) (lf - 2) 0x0d) (lf - 1) 0x0a

  -- `int` is an unbounded number here: serials count messages.
  pub new_frame : ℕ → List ℕ → ℕ → List ℕ
  unfolding seal put_u16
  new_frame protocol payload serial =
      let lp = length payload in
      let lf = lp + 10 in
      let start = set (set (replicate lf 0) 0 0x78) 1 0x78 in
      let head = set (set start 2 ((lp + 5) % 256)) 3 protocol in
      seal (put_u16 (copy_at head 4 payload) (lf - 6) (serial % 2 ^ 16)) lf

  -- `server_flag[:4]` is there: the caller makes four bytes.
  pub new_command : List ℕ → List ℕ → ℕ → List ℕ
  unfolding new_frame
  new_command msg server_flag serial =
      let lm = length msg in
      let start = set (replicate (lm + 5) 0) 0 (lm % 256) in
      let payload = copy_at (copy_at start 1 (take 4 server_flag)) 5 msg in
      new_frame server_command payload serial
