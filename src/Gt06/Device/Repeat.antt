-- ===== src/Gt06/Device/Repeat.antt =====
-- A location that is handled a second time, since the loop of `run` does not go back to reading after
-- its first timeout.
use gpstracker_backend.Base.{
  ◌+◌, ◌%◌, ◌^◌, ◌≡◌, ap, ◌∙◌, List, [], ◌∷◌, ◌++◌, map, length, arith, true, false,
}
use gpstracker_backend.Base.Go.{Input, byte, late}
use gpstracker_backend.Base.Values.{Values}
use gpstracker_backend.Gt06.Message.{gt06_gps}
use gpstracker_backend.Gt06.Frame.{new_frame, new_command}
use gpstracker_backend.Gt06.State.{command_sent_topic, flag_detail, wrote, saved_event, Device}
use gpstracker_backend.Gt06.Command.{put_u32, submit, command_frame, mark_sent}
use gpstracker_backend.Gt06.Command.Answer.{Accepts, delivered}
use gpstracker_backend.Gt06.Device.{go, Outside, event_run, rounds, run, status_command}
use gpstracker_backend.Gt06.Device.Timeout.{iterate_first_timeout}
use gpstracker_backend.Gt06.Device.Located.{
  Report, IsReport, payload, says, effects_for, after, dispatch-payload, iterate-payload,
}

module _ (V : Values) (O : Outside V) where
  open V use {Time}

  -- A device whose buffer has 1000 bytes sends a location in a frame, with fields that fit their
  -- bytes, and then nothing until the read deadline passes; the connection takes the next write.
  -- The location is stored and sent to the subscribers, then the command STATUS# is written under
  -- the next flag and serial and saved as an event, and then the same location is stored and sent
  -- once more, with the later time, though the device sent it once.
  pub run-late :
      (t0 t : Time) (x : Report V) (rest : List Input) (dev : Device V)
      → length dev.msg.buffer ≡ 1000
      → IsReport V x
      → Accepts V dev.faults
      → let frame = new_frame V.checksum_x25 gt06_gps (payload V x) x.serial in
        let out = run V O t0 (x.read ∷ t ∷ []) (map byte frame ++ late ∷ rest) dev in
        let flag = (dev.cmd.server_flag_counter + 1) % 2 ^ 32 in
        let serial = dev.cmd.serial_counter + 1 in
        (out.0 ≡ rest)
        × (out.2 ≡ go true)
        × (out.1.effects
            ≡ effects_for V dev.conf dev.ser x.cell (says V x) t
              ++ saved_event command_sent_topic status_command (flag_detail flag) t
                ∷ wrote (new_command V.checksum_x25 status_command (put_u32 flag) serial)
                ∷ (effects_for V dev.conf dev.ser dev.location.loc.cell (says V x) x.read
                    ++ (event_run V t0 dev).effects))
  unfolding run rounds event_run submit command_frame mark_sent
  run-late t0 t x rest dev hb v a =
      let start = event_run V t0 dev in
      let (m, hm, kind, text, same) = iterate-payload V O false x (late ∷ rest) start hb v in
      let first = after V (says V x) x.read (record start { msg = m }) in
      let second = delivered V status_command t first in
      let whole =
        ap (λ y. rounds V O (t ∷ []) y) same
        ∙ iterate_first_timeout V O t rest first (omega (arith, hm)) a
        ∙ ap (λ out. (rest, out.0, out.1))
            (dispatch-payload V O true (record x { read = t }) second kind text
              (record { raw_fits = v.raw_fits; cell_fits = v.cell_fits })) in
      (ap (λ y. y.0) whole, ap (λ y. y.2) whole, ap (λ y. y.1.effects) whole)
