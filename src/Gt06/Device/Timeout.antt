-- ===== src/Gt06/Device/Timeout.antt =====
-- What the loop of `run` does when the read deadline passes, and what it stores of a location.
use gpstracker_backend.Base.{◌≤◌, ◌≡◌, refl, ap, Bool, true, false, List, ◌∷◌, length, not, ◌&&◌}
use gpstracker_backend.Base.Go.{timeout, Input, late}
use gpstracker_backend.Base.Values.{Values}
use gpstracker_backend.Gt06.Frame.Timeout.{read_message-late}
use gpstracker_backend.Gt06.State.{Device}
use gpstracker_backend.Gt06.Command.{is_empty}
use gpstracker_backend.Gt06.Command.Answer.{Accepts, delivered, send_command-delivered}
use gpstracker_backend.Gt06.Device.{
  Outside, dispatch, pinged, give_up, after_read, iterate, status_command,
}

module _ (V : Values) (O : Outside V) where
  open V use {Time}

  -- When the deadline passes for the first time, with a buffer of at least four bytes and a
  -- connection that takes the next write, the command STATUS# is sent, forced, and then the message
  -- that was read before the deadline is handled once more.
  pub iterate_first_timeout :
      (t : Time) (s : List Input) (dev : Device V)
      → 4 ≤ length dev.msg.buffer
      → Accepts V dev.faults
      → let (dev', next) = dispatch V O true t (delivered V status_command t dev) in
        iterate V O false t (late ∷ s) dev ≡ (s, dev', next)
  unfolding iterate after_read pinged
  iterate_first_timeout t s dev h a = rw (read_message-late s dev.msg h) (
      ap (λ w. (s, (pinged V O t w).0, (pinged V O t w).1))
        (send_command-delivered V status_command true t dev free a))
    where
      never : (b : Bool) → (not b && false) ≡ false
      never true = refl
      never false = refl

      free : (not (is_empty dev.cmd.status) && not true) ≡ false
      free = never (is_empty dev.cmd.status)

  -- When the deadline passes again, at any later time, the connection is given up.
  pub iterate_second_timeout :
      (t : Time) (s : List Input) (dev : Device V)
      → 4 ≤ length dev.msg.buffer
      → let (dev', next) = give_up V O timeout t dev in
        iterate V O true t (late ∷ s) dev ≡ (s, dev', next)
  unfolding iterate after_read
  iterate_second_timeout t s dev h = rw (read_message-late s dev.msg h) refl
