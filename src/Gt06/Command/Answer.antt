-- ===== src/Gt06/Command/Answer.antt =====
-- The life of a command: sent, answered, pending, and what a response stores.
use gpstracker_backend.Base.{
  ℕ, ◌+◌, ◌%◌, ◌^◌, ◌≡◌, ◌⊎◌, refl, sym, ap, ◌∙◌, Bool, true, false, not, ◌&&◌, List, [], ◌∷◌, none,
  ◌==◌, map, inl, inr, arith, Bool-cases, ==_iff,
}
use gpstracker_backend.Base.Values.{Values}
use gpstracker_backend.Gt06.State.{
  command_response, flag_detail, command_key, command_empty, wrote, saved_event, saved_response,
  set_attribute, Device, note, write, written_as,
}
use gpstracker_backend.Gt06.Parser.{CommandResponse}
use gpstracker_backend.Gt06.Command.{
  is_empty, plain_s, lower, upper, equal, equal_fold, to_upper, version_text, param_text,
  should_update_attribute, submit, command_frame, mark_sent, transmitted, send_command,
  handle_command_response,
}

equal_eq : (xs ys : List ℕ) → equal xs ys ≡ true → xs ≡ ys
equal_eq [] [] h = refl
equal_eq [] (y ∷ ys) h = cc
equal_eq (x ∷ xs) [] h = cc
equal_eq (x ∷ xs) (y ∷ ys) h = elim (Bool-cases (x == y)) [
  | inl e ↦ (λ i. (==_iff x y).0 e i ∷ equal_eq xs ys (rw e at h) i)
  | inr n ↦ cc (rw n at h)
]

upper-lower : (b : ℕ) → upper (lower b) ≡ upper b
unfolding upper lower
upper-lower b = ground arith

map-upper-lower : (xs : List ℕ) → map upper (map lower xs) ≡ map upper xs
map-upper-lower [] = refl
map-upper-lower (x ∷ xs) = λ i. upper-lower x i ∷ map-upper-lower xs i

to_upper-equal_fold :
    (s t : List ℕ) → map upper (map lower t) ≡ t → equal_fold s t ≡ true → to_upper s ≡ t
unfolding to_upper equal_fold
to_upper-equal_fold s t e h =
    sym (map-upper-lower (plain_s s)) ∙ ap (map upper) (equal_eq _ _ h) ∙ e

-- An attribute is updated for two commands only, however their letters were written, and its key
-- is the command in capitals: VERSION# or PARAM#.
pub to_upper-should_update_attribute :
    (cmd : List ℕ)
    → should_update_attribute cmd ≡ true
    → (to_upper cmd ≡ version_text) ⊎ (to_upper cmd ≡ param_text)
unfolding should_update_attribute
to_upper-should_update_attribute cmd h = elim (Bool-cases (equal_fold cmd version_text)) [
  | inl v ↦ inl (to_upper-equal_fold cmd version_text (unfold upper in unfold lower in refl) v)
  | inr n ↦
      inr (to_upper-equal_fold cmd param_text (unfold upper in unfold lower in refl) (rw n at h))
]

module _ (V : Values) where
  open V use {Time}

  -- A command that is not forced while another is pending changes nothing and says so.
  pub send_command_pending :
      (text : List ℕ) (t : Time) (dev : Device V)
      → is_empty dev.cmd.status ≡ false
      → send_command V text false t dev ≡ (dev, true, none)
  unfolding send_command
  send_command_pending text t dev h = rw h refl

  -- The connection takes the next write.
  abbrev pub Accepts : List Bool → Type 0
  Accepts [] = Unit {0}
  Accepts (fault ∷ faults) = fault ≡ false

  abbrev pub rest_of : List Bool → List Bool
  rest_of [] = []
  rest_of (fault ∷ faults) = faults

  pub write_accepted :
      (d : List ℕ) (dev : Device V)
      → Accepts dev.faults
      → write V d dev ≡ (note V (wrote d) (record dev { faults = rest_of dev.faults }), none)
  unfolding write written_as
  write_accepted d dev a = taken dev.faults refl a
    where
      taken :
          (fs : List Bool)
          → dev.faults ≡ fs
          → Accepts fs
          → written_as V fs d dev ≡ (note V (wrote d) (record dev { faults = rest_of fs }), none)
      taken [] e a = λ i. (note V (wrote d) (record dev { faults = e i }), none)
      taken (false ∷ fs) e a = refl
      taken (true ∷ fs) e a = cc

  -- The device after a command was submitted, written and marked as sent.
  abbrev pub delivered : List ℕ → Time → Device V → Device V
  delivered text t dev =
      let dev' = submit V text dev in
      mark_sent V text dev'.cmd.current_server_flag t
        (note V (wrote (command_frame V dev')) (record dev' { faults = rest_of dev.faults }))

  -- A command that is forced, or finds none pending, is written as the frame of its text, of the
  -- next server flag and of the next serial; when the connection takes it, it counts as sent.
  pub send_command-delivered :
      (text : List ℕ) (force : Bool) (t : Time) (dev : Device V)
      → (not (is_empty dev.cmd.status) && not force) ≡ false
      → Accepts dev.faults
      → send_command V text force t dev ≡ (delivered text t dev, false, none)
  unfolding send_command transmitted
  send_command-delivered text force t dev free a = rw free (
      ap (transmitted V text (submit V text dev).cmd.current_server_flag t) (
        write_accepted (command_frame V (submit V text dev)) (submit V text dev)
          (unfold submit in a)))

  -- What the stores keep of a response that answers the command `text`, sent at `sent`.
  abbrev pub Answered : List ℕ → Time → CommandResponse → Time → Device V → Device V → Type 0
  Answered text sent r t dev dev' =
      (dev'.cmd.status ≡ command_empty)
      × ((dev'.effects
            ≡ saved_response r.server_flag text sent r.message t
              ∷ saved_event command_response r.message (flag_detail r.server_flag) t
              ∷ dev.effects)
          ⊎ (dev'.effects
              ≡ set_attribute (command_key (to_upper text)) r.message
                ∷ saved_response r.server_flag text sent r.message t
                ∷ saved_event command_response r.message (flag_detail r.server_flag) t
                ∷ dev.effects))

  -- A response with the current server flag frees the device for the next command and is saved
  -- with the command that it answers and the time at which that was sent.
  pub handle_command_response-Answered :
      (r : CommandResponse) (t : Time) (dev : Device V)
      → r.server_flag ≡ dev.cmd.current_server_flag
      → Answered dev.cmd.current_msg dev.cmd.sent_time r t dev (handle_command_response V r t dev)
  unfolding handle_command_response
  handle_command_response-Answered r t dev e =
      rw (matched) (elim (Bool-cases (should_update_attribute dev.cmd.current_msg)) [
        | inl y ↦ rw y (refl, inr refl)
        | inr n ↦ rw n (refl, inl refl)
      ])
    where
      matched : (r.server_flag == dev.cmd.current_server_flag) ≡ true
      matched = (==_iff _ _).1 e

  -- A response with another server flag is logged and changes nothing else.
  pub handle_command_response_stale :
      (r : CommandResponse) (t : Time) (dev : Device V)
      → (r.server_flag == dev.cmd.current_server_flag) ≡ false
      → handle_command_response V r t dev
        ≡ note V (saved_event command_response r.message (flag_detail r.server_flag) t) dev
  unfolding handle_command_response
  handle_command_response_stale r t dev n = rw n refl

  -- A command that was delivered and is then answered under its flag leaves no command pending, and
  -- the response is saved with the command's text and the time of its sending.
  pub delivered-Answered :
      (text message : List ℕ) (sent t : Time) (dev : Device V)
      → let dev' = delivered text sent dev in
        let r : CommandResponse = record {
          server_flag = (dev.cmd.server_flag_counter + 1) % 2 ^ 32;
          message = message;
        } in
        Answered text sent r t dev' (handle_command_response V r t dev')
  unfolding submit mark_sent
  delivered-Answered text message sent t dev =
      handle_command_response-Answered
        (record { server_flag = (dev.cmd.server_flag_counter + 1) % 2 ^ 32; message = message }) t
        (delivered text sent dev) refl

  -- When the response to a command is handled between the write of the command and the section that
  -- marks it as sent, the response frees the device and is saved as the answer to this command, but
  -- with the time at which the command before it was sent; and then the answered command counts as
  -- pending: a later command that is not forced is refused.
  pub send_command_overtaken :
      (text next message : List ℕ) (t1 t2 t3 : Time) (dev : Device V)
      → let written = note V (wrote (command_frame V (submit V text dev))) (submit V text dev) in
        let r : CommandResponse = record {
          server_flag = (dev.cmd.server_flag_counter + 1) % 2 ^ 32;
          message = message;
        } in
        let answered = handle_command_response V r t1 written in
        let after = mark_sent V text (submit V text dev).cmd.current_server_flag t2 answered in
        Answered text dev.cmd.sent_time r t1 written answered
        × (send_command V next false t3 after ≡ (after, true, none))
  send_command_overtaken text next message t1 t2 t3 dev = (
    unfold submit in
        handle_command_response-Answered
          (record { server_flag = (dev.cmd.server_flag_counter + 1) % 2 ^ 32; message = message })
          t1 (note V (wrote (command_frame V (submit V text dev))) (submit V text dev)) refl,
    send_command_pending next t3 _ (unfold mark_sent in refl),
  )
