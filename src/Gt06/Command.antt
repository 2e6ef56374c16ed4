-- ===== src/Gt06/Command.antt =====
-- The commands of internal/gpsv2/device/gt06/gt06.go: at most one is pending, and a response
-- answers it by its server flag.
pub mod Answer
mod Runs
use gpstracker_backend.Base.{
  ℕ, suc, ◌+◌, ◌-◌, ◌*◌, ◌/◌, ◌%◌, ◌^◌, Bool, true, false, not, ◌&&◌, ◌||◌, List, [], ◌∷◌, Option,
  none, some, leb, ◌==◌, if◌then◌else◌, map,
}
use gpstracker_backend.Base.Go.{Error}
use gpstracker_backend.Base.Values.{Values}
use gpstracker_backend.Gt06.State.{
  Topic, command_sent_topic, command_response, flag_detail, command_key, CommandStatus,
  command_submitted, command_sent, command_empty, Effect, saved_event, saved_response,
  set_attribute, CommandState, Device, note, write,
}
use gpstracker_backend.Gt06.Parser.{CommandResponse}
use gpstracker_backend.Gt06.Frame.{new_command}

abbrev pub is_empty : CommandStatus → Bool
is_empty command_submitted = false
is_empty command_sent = false
is_empty command_empty = true

-- `binary.BigEndian.PutUint32`
abbrev pub put_u32 : ℕ → List ℕ
put_u32 n = n / 2 ^ 24 % 256 ∷ n / 2 ^ 16 % 256 ∷ n / 2 ^ 8 % 256 ∷ n % 256 ∷ []

-- The letter s has a second small form, which folds to it: U+017F, the bytes c5 and bf. No other
-- letter of the two texts below has one.
unfoldable pub plain_s : List ℕ → List ℕ
plain_s [] = []
plain_s (a ∷ []) = a ∷ []
plain_s (a ∷ b ∷ cs) =
    let rest = plain_s cs in
    let next = plain_s (b ∷ cs) in if (a == 0xc5) && (b == 0xbf) then b's' ∷ rest else a ∷ next

unfoldable pub lower : ℕ → ℕ
lower b = if leb b'A' b && leb b b'Z' then b + 32 else b

unfoldable pub upper : ℕ → ℕ
upper b = if leb b'a' b && leb b b'z' then b - 32 else b

abbrev pub equal : List ℕ → List ℕ → Bool
equal [] [] = true
equal [] (b ∷ bs) = false
equal (a ∷ xs) [] = false
equal (a ∷ xs) (b ∷ bs) = (a == b) && equal xs bs

-- `strings.EqualFold`, whose second argument is one of the two texts below.
unfoldable pub equal_fold : List ℕ → List ℕ → Bool
unfolding lower plain_s
equal_fold s t = equal (map lower (plain_s s)) (map lower t)

-- `strings.ToUpper` of a text that folds to one of the two below.
unfoldable pub to_upper : List ℕ → List ℕ
unfolding upper plain_s
to_upper s = map upper (plain_s s)

abbrev pub version_text : List ℕ
version_text = b'V' ∷ b'E' ∷ b'R' ∷ b'S' ∷ b'I' ∷ b'O' ∷ b'N' ∷ b'#' ∷ []

abbrev pub param_text : List ℕ
param_text = b'P' ∷ b'A' ∷ b'R' ∷ b'A' ∷ b'M' ∷ b'#' ∷ []

unfoldable pub should_update_attribute : List ℕ → Bool
unfolding equal_fold
should_update_attribute cmd =
    if equal_fold cmd version_text then true else equal_fold cmd param_text

module _ (V : Values) where
  open V use {Time}

  -- The first critical section of `_send_command`, past its test.
  unfoldable pub submit : List ℕ → Device V → Device V
  submit text dev =
      let server_flag = (dev.cmd.server_flag_counter + 1) % 2 ^ 32 in
      record dev {
        cmd = record dev.cmd {
          server_flag_counter = server_flag;
          serial_counter = dev.cmd.serial_counter + 1;
          current_server_flag = server_flag;
          current_msg = text;
          status = command_submitted;
        };
      }

  -- What a submitted command is written as.
  unfoldable pub command_frame : Device V → List ℕ
  command_frame dev =
      new_command V.checksum_x25 dev.cmd.current_msg (put_u32 dev.cmd.current_server_flag)
        dev.cmd.serial_counter

  -- The rest of `_send_command` after a successful write of the command `text`.
  unfoldable pub mark_sent : List ℕ → ℕ → Time → Device V → Device V
  mark_sent text server_flag t dev =
      note V (saved_event command_sent_topic text (flag_detail server_flag) t)
        (record dev { cmd = record dev.cmd { status = command_sent; sent_time = t } })

  unfoldable pub transmitted :
      List ℕ → ℕ → Time → Device V × Option Error → Device V × Bool × Option Error
  unfolding mark_sent
  transmitted text server_flag t (dev, some e) = (dev, false, some e)
  transmitted text server_flag t (dev, none) = (mark_sent text server_flag t dev, false, none)

  -- `_send_command` without another goroutine between its critical sections.
  unfoldable pub send_command : List ℕ → Bool → Time → Device V → Device V × Bool × Option Error
  unfolding submit transmitted command_frame write
  send_command text force t dev =
      if not (is_empty dev.cmd.status) && not force
      then (dev, true, none)
      else (let dev' = submit text dev in
          transmitted text dev'.cmd.current_server_flag t (write V (command_frame dev') dev'))

  -- `handle_command_response`
  unfoldable pub handle_command_response : CommandResponse → Time → Device V → Device V
  unfolding should_update_attribute to_upper
  handle_command_response r t dev =
      let answered = r.server_flag == dev.cmd.current_server_flag in
      let logged =
        note V (saved_event command_response r.message (flag_detail r.server_flag) t) (record dev {
          cmd = record dev.cmd { status = if answered then command_empty else dev.cmd.status };
        }) in
      let saved =
        note V
          (saved_response r.server_flag logged.cmd.current_msg logged.cmd.sent_time r.message t)
          logged in
      if answered
      then (if should_update_attribute dev.cmd.current_msg
          then note V (set_attribute (command_key (to_upper dev.cmd.current_msg)) r.message) saved
          else saved)
      else logged
