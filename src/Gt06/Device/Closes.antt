-- ===== src/Gt06/Device/Closes.antt =====
-- How the loop of `run` leaves the device: with the connection closed and the error kept.
use gpstracker_backend.Base.{
  ℕ, ◌≡◌, refl, sym, ap, ◌∙◌, Bool, true, false, not, ◌&&◌, List, [], ◌∷◌, ◌++◌, Option, none, some,
  ◌==◌, if◌then◌else◌, inl, inr, Bool-cases,
}
use mathlib.Core.Path.{subst}
use gpstracker_backend.Base.Go.{
  Error, timeout, write_failed, Result, ok, err, panic, Input, Slice, index, from, ◌>>=◌,
}
use gpstracker_backend.Base.Values.{Values, utc, local}
use gpstracker_backend.Gt06.Message.{
  payload_of, gt06_gps, status_information, string_information, gt06_gps_alarm, gk310_gps,
  gk310_gps_alarm, server_command_response, time_check, information_tx_packet,
}
use gpstracker_backend.Gt06.Parser.{
  parse_status_information, parse_device_sn, parse_gk310_command_response,
  parse_gt06_command_response, parse_gt06_gps_message, parse_gk310_gps_message, parse_gps_alarm,
}
use gpstracker_backend.Gt06.Frame.{new_frame, read_message}
use gpstracker_backend.Gt06.State.{
  Effect, closed_conn, Device, write, written_as, close_and_set_err,
}
use gpstracker_backend.Gt06.Command.{is_empty, submit, command_frame, transmitted, send_command}
use gpstracker_backend.Gt06.Device.{
  Next, go, returned, crashed, Outside, parsed, responded, information, dispatch, pinged, give_up,
  after_read, iterate, rounds, run, event_run, handle_disconnection, status_command, time_response,
  handle_heartbeat,
}

-- The error that makes a round return: that of the read, unless it is the first timeout; then, and
-- after a good read, only a failed write does.
abbrev pub cause : Bool → Result (Unit {0}) → Error
cause sent (ok u) = write_failed
cause sent panic = write_failed
cause true (err e) = e
cause false (err timeout) = write_failed
cause false (err e) = e

module _ (V : Values) where
  open V use {Time}

  -- The last call closed the connection, and this error and time are kept.
  abbrev pub IsClosed : Error → Time → Device V → Type 0
  IsClosed e t dev =
      ((before : List (Effect V)) × (dev.effects ≡ closed_conn ∷ before)) × (dev.err ≡ some (e, t))

  abbrev WhenReturned : Error → Time → Device V → Next → Type 0
  WhenReturned e t dev (go sent) = Unit {0}
  WhenReturned e t dev returned = IsClosed e t dev
  WhenReturned e t dev crashed = Unit {0}

  abbrev Ends : Error → Time → Device V × Next → Type 0
  Ends e t x = WhenReturned e t x.0 x.1

  close_and_set_err-IsClosed :
      (e : Error) (t : Time) (dev : Device V) → IsClosed e t (close_and_set_err V e t dev)
  unfolding close_and_set_err
  close_and_set_err-IsClosed e t dev = ((dev.effects, refl), refl)

  -- A write that fails gives this error.
  abbrev IsWrite : Option Error → Type 0
  IsWrite none = Unit {0}
  IsWrite (some e) = e ≡ write_failed

  write-IsWrite : (d : List ℕ) (dev : Device V) → IsWrite (write V d dev).1
  unfolding write
  write-IsWrite d dev = by_faults dev.faults
    where
      by_faults : (fs : List Bool) → IsWrite (written_as V fs d dev).1
      by_faults [] = unfold written_as in tt
      by_faults (false ∷ fs) = unfold written_as in tt
      by_faults (true ∷ fs) = unfold written_as in refl

  send_command-IsWrite :
      (text : List ℕ) (force : Bool) (t : Time) (dev : Device V)
      → IsWrite (send_command V text force t dev).2
  unfolding send_command transmitted
  send_command-IsWrite text force t dev =
      elim (Bool-cases (not (is_empty dev.cmd.status) && not force)) [
        | inl y ↦ rw y tt
        | inr n ↦ rw n (
            sent (write V (command_frame V (submit V text dev)) (submit V text dev))
              (write-IsWrite (command_frame V (submit V text dev)) (submit V text dev)))
      ]
    where
      sent :
          (w : Device V × Option Error)
          → IsWrite w.1
          → IsWrite (transmitted V text (submit V text dev).cmd.current_server_flag t w).2
      sent (dev', none) h = tt
      sent (dev', some e) h = h

  parsed-Ends {ℓ} :
      {A : Type ℓ} (t : Time) (r : Result A) (k : A → Device V × Next) (dev : Device V)
      → ((a : A) → Ends write_failed t (k a))
      → Ends write_failed t (parsed V r k dev)
  parsed-Ends t (ok a) k dev h = h a
  parsed-Ends t (err e) k dev h = tt
  parsed-Ends t panic k dev h = tt

  responded-Ends :
      (t : Time) (w : Device V × Option Error) (k : Device V → Device V × Next)
      → IsWrite w.1
      → ((dev : Device V) → Ends write_failed t (k dev))
      → Ends write_failed t (responded V t w k)
  responded-Ends t (dev, none) k w h = h dev
  responded-Ends t (dev, some e) k w h =
      subst (λ x. IsClosed x t (close_and_set_err V e t dev)) w (close_and_set_err-IsClosed e t dev)

  -- Both branches of a test keep a property.
  branch-Ends :
      (t : Time) (b : Bool) (x y : Device V × Next)
      → Ends write_failed t x
      → Ends write_failed t y
      → Ends write_failed t (if b then x else y)
  branch-Ends t true x y hx hy = hx
  branch-Ends t false x y hx hy = hy

  information-Ends :
      (t : Time) (sent : Bool) (d : Slice) (dev : Device V)
      → Ends write_failed t (information V sent d dev)
  unfolding information
  information-Ends t sent d dev = parsed-Ends t (index d 0) _ dev (λ kind.
      branch-Ends t (kind == 0x04) _ _ (parsed-Ends t (from d 1) _ dev (λ r. tt)) (
        branch-Ends t (kind == 0x0a) _ _
          (parsed-Ends t (from d 1 >>= parse_device_sn) _ dev (λ sn. tt)) tt))

module _ (V : Values) (O : Outside V) where
  open V use {Time}

  dispatch-Ends :
      (sent : Bool) (t : Time) (dev : Device V) → Ends V write_failed t (dispatch V O sent t dev)
  unfolding dispatch
  dispatch-Ends sent t dev =
      let d = payload_of dev.msg in
      let kind = dev.msg.protocol in
      branch-Ends V t (kind == time_check) _ _
        (responded-Ends V t
          (write V (new_frame V.checksum_x25 time_check (time_response V O t) dev.msg.serial) dev)
          (λ dev'. (dev', go sent)) (write-IsWrite V _ dev) (λ dev'. tt))
        (branch-Ends V t (kind == status_information) _ _
          (parsed-Ends V t (parse_status_information d) _ dev (λ st.
            responded-Ends V t
              (write V (new_frame V.checksum_x25 status_information [] dev.msg.serial) dev)
              (λ dev'. (handle_heartbeat V O st t dev', go sent)) (write-IsWrite V _ dev)
              (λ dev'. tt)))
          (branch-Ends V t (kind == gk310_gps) _ _
            (parsed-Ends V t (parse_gk310_gps_message V d) _ dev (λ m. tt))
            (branch-Ends V t (kind == gt06_gps) _ _
              (parsed-Ends V t (parse_gt06_gps_message V d) _ dev (λ m. tt))
              (branch-Ends V t (kind == gk310_gps_alarm) _ _
                (parsed-Ends V t (parse_gps_alarm V d utc) _ dev (λ m. tt))
                (branch-Ends V t (kind == gt06_gps_alarm) _ _
                  (parsed-Ends V t (parse_gps_alarm V d local) _ dev (λ m. tt))
                  (branch-Ends V t (kind == information_tx_packet) _ _
                    (information-Ends V t sent d dev)
                    (branch-Ends V t (kind == server_command_response) _ _
                      (parsed-Ends V t (parse_gk310_command_response d) _ dev (λ r. tt))
                      (branch-Ends V t (kind == string_information) _ _
                        (parsed-Ends V t (parse_gt06_command_response d) _ dev (λ r. tt)) tt))))))))

  give_up-Ends : (e : Error) (t : Time) (dev : Device V) → Ends V e t (give_up V O e t dev)
  give_up-Ends e t dev = close_and_set_err-IsClosed V e t (handle_disconnection V t dev)

  pinged-Ends :
      (t : Time) (w : Device V × Bool × Option Error)
      → IsWrite V w.2
      → Ends V write_failed t (pinged V O t w)
  unfolding pinged
  pinged-Ends t (dev, pending, none) h = dispatch-Ends true t dev
  pinged-Ends t (dev, pending, some e) h =
      subst (λ x. IsClosed V x t (give_up V O e t dev).0) h (give_up-Ends e t dev)

  after_read-Ends :
      (sent : Bool) (t : Time) (r : Result (Unit {0})) (dev : Device V)
      → Ends V (cause sent r) t (after_read V O sent t r dev)
  unfolding after_read
  after_read-Ends sent t (ok u) dev = dispatch-Ends sent t dev
  after_read-Ends sent t panic dev = tt
  after_read-Ends true t (err timeout) dev = give_up-Ends timeout t dev
  after_read-Ends false t (err timeout) dev =
      pinged-Ends t (send_command V status_command true t dev)
        (send_command-IsWrite V status_command true t dev)
  after_read-Ends sent t (err e) dev = give_up-Ends e t dev

  -- The round at `t` left the loop, behind the rounds at the times before.
  abbrev pub LeftBy :
      List Time → List Input × Device V × Next → List Input × Device V × Next → Type 0
  LeftBy ts x out =
      (before : List Time) × (t : Time) × (later : List Time) × (sent : Bool) × (ts
        ≡ before ++ t ∷ later)
      × let y = rounds V O before x in
        (y.2 ≡ go sent)
        × (out ≡ iterate V O sent t y.0 y.1)
        × IsClosed V (cause sent (read_message y.0 y.1.msg).2) t out.1

  -- Once it is left, a loop does nothing.
  rounds_over :
      (ts : List Time) (s : List Input) (dev : Device V)
      → (rounds V O ts (s, dev, returned) ≡ (s, dev, returned))
        × (rounds V O ts (s, dev, crashed) ≡ (s, dev, crashed))
  unfolding rounds
  rounds_over [] s dev = (refl, refl)
  rounds_over (t ∷ ts) s dev = rounds_over ts s dev

  rounds-LeftBy :
      (ts : List Time) (sent : Bool) (s : List Input) (dev : Device V)
      → (rounds V O ts (s, dev, go sent)).2 ≡ returned
      → LeftBy ts (s, dev, go sent) (rounds V O ts (s, dev, go sent))
  unfolding rounds
  rounds-LeftBy [] sent s dev h = cc
  rounds-LeftBy (t ∷ ts) sent s dev h =
      by_next (λ sent' s' dev' r. rounds-LeftBy ts sent' s' dev' r) (iterate V O sent t s dev) refl
        h
    where
      later :
          (y : List Input × Device V × Next)
          → LeftBy ts (iterate V O sent t s dev) y
          → LeftBy (t ∷ ts) (s, dev, go sent) y
      later y (before, t', more, sent', e, rest) =
          (t ∷ before, t', more, sent', ap (λ l. t ∷ l) e, rest)

      apart : crashed ≡ returned → ⊥
      apart h = cc

      ended :
          (x : List Input × Device V × Next)
          → iterate V O sent t s dev ≡ x
          → Ends V (cause sent (read_message s dev.msg).2) t (x.1, x.2)
      ended x e =
          subst (λ y. Ends V (cause sent (read_message s dev.msg).2) t (y.1, y.2)) e
            (unfold iterate in
              after_read-Ends sent t (read_message s dev.msg).2
                (record dev { msg = (read_message s dev.msg).1 }))

      by_next :
          ((sent' : Bool) (s' : List Input) (dev' : Device V)
            → (rounds V O ts (s', dev', go sent')).2 ≡ returned
            → LeftBy ts (s', dev', go sent') (rounds V O ts (s', dev', go sent')))
          → (x : List Input × Device V × Next) → iterate V O sent t s dev ≡ x
          → (rounds V O ts x).2 ≡ returned
          → LeftBy (t ∷ ts) (s, dev, go sent) (rounds V O ts x)
      by_next ih (s', dev', go sent') e r = later (rounds V O ts (s', dev', go sent')) (
          subst (λ x. LeftBy ts x (rounds V O ts (s', dev', go sent'))) (sym e)
            (ih sent' s' dev' r))
      by_next ih (s', dev', returned) e r =
          let over = (rounds_over ts s' dev').0 in
          (
            [],
            t,
            ts,
            sent,
            refl,
            (
              refl,
              over ∙ sym e,
              subst (λ y. IsClosed V (cause sent (read_message s dev.msg).2) t y.1) (sym over)
                  (ended (s', dev', returned) e),
            ),
          )
      by_next ih (s', dev', crashed) e r =
          absurd (apart (sym (ap (λ y. y.2) (rounds_over ts s' dev').1) ∙ r))

  -- When `run` has returned, one round has left the loop: its last call closed the connection, and
  -- what is kept is its time and the error of its read, or, when that was good or the first timeout,
  -- the error of a failed write.
  pub run-LeftBy :
      (t0 : Time) (ts : List Time) (s : List Input) (dev : Device V)
      → (run V O t0 ts s dev).2 ≡ returned
      → LeftBy ts (s, event_run V t0 dev, go false) (run V O t0 ts s dev)
  unfolding run
  run-LeftBy t0 ts s dev h = rounds-LeftBy ts false s (event_run V t0 dev) h
