-- ===== src/SimpleJson/Frame.antt =====
-- internal/gpsv2/device/simplejson/frame.go, with the message of format.go.
pub mod Arrived
pub mod Progress
mod Runs
use gpstracker_backend.Base.{
  ℕ, ◌+◌, ◌-◌, ◌*◌, Bool, true, false, Option, none, some, List, [], length, take, drop, get_or,
  ltb, ◌==◌, if◌then◌else◌,
}
use gpstracker_backend.Base.Go.{
  Error, buffer_too_small, bad_frame, Result, ok, err, Input, read_full, copy_at,
}

-- `payload` aliases `buffer`: it is the pair of its bounds there, and `none` is the nil slice.
pub record FrameMessage : Type 0 where
  pub length : ℕ
  pub protocol : ℕ
  pub payload : Option (ℕ × ℕ)
  pub buffer : List ℕ

-- A `FrameMessage{}` with the given buffer.
abbrev pub blank : List ℕ → FrameMessage
blank buf = record { length = 0; protocol = 0; payload = none; buffer = buf }

-- The bytes that `msg.Payload` shows.
abbrev pub shown : Option (ℕ × ℕ) → List ℕ → List ℕ
shown none buf = []
shown (some (lo, hi)) buf = take (hi - lo) (drop lo buf)

abbrev pub Outcome : Type 0
Outcome = List Input × FrameMessage × Result (Unit {0})

-- From the test of the last byte on.
finish : List Input → FrameMessage → Outcome
finish s m =
    if get_or m.buffer (m.length - 1) 0 == 0x0a
    then (s, record m { payload = some (4, m.length - 1) }, ok tt)
    else (s, m, err bad_frame)

after_body : List ℕ × List Input × Option Error → FrameMessage → Outcome
unfolding finish
after_body (bs, s, some e) m = (s, record m { buffer = copy_at m.buffer 4 bs }, err e)
after_body (bs, s, none) m = finish s (record m { buffer = copy_at m.buffer 4 bs })

-- From the second test of the buffer on.
read_body : List Input → FrameMessage → Outcome
unfolding after_body
read_body s m =
    if ltb (length m.buffer) m.length
    then (s, m, err buffer_too_small)
    else after_body (read_full s (m.length - 4)) m

-- From the test of the start byte on.
read_kind : List Input → FrameMessage → Outcome
unfolding read_body
read_kind s m =
    let at = λ (i : ℕ). get_or m.buffer i 0 in
    if at 0 == 0x99
    then read_body s (record m { protocol = at 1; length = at 2 + at 3 * 256 + 5 })
    else (s, m, err bad_frame)

after_head : List ℕ × List Input × Option Error → FrameMessage → Outcome
unfolding read_kind
after_head (bs, s, some e) m = (s, record m { buffer = copy_at m.buffer 0 bs }, err e)
after_head (bs, s, none) m = read_kind s (record m { buffer = copy_at m.buffer 0 bs })

-- `readMessage` and `ReadMessage`
pub read_message : List Input → FrameMessage → Outcome
unfolding after_head
read_message s m =
    if ltb (length m.buffer) 5 then (s, m, err buffer_too_small) else after_head (read_full s 4) m
