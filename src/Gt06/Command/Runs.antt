-- ===== src/Gt06/Command/Runs.antt =====
-- Runs of the commands of internal/gpsv2/device/gt06/gt06.go, and their theorems at concrete
-- inputs.
use gpstracker_backend.Base.Int.{pos}
use gpstracker_backend.Base.{◌≡◌, refl, ℕ, List, [], ◌∷◌, ◌+◌, ◌%◌, ◌^◌, true, false, none}
use gpstracker_backend.Base.Values.{plain}
use gpstracker_backend.Device.{new_serial}
use gpstracker_backend.Gt06.Parser.{CommandResponse}
use gpstracker_backend.Gt06.State.{DeviceConfig, Device, new_gt06, wrote, note}
use gpstracker_backend.Gt06.Command.{
  should_update_attribute, equal_fold, plain_s, lower, version_text, param_text, submit,
  command_frame, mark_sent, send_command, handle_command_response,
}
use gpstracker_backend.Gt06.Command.Answer.{
  delivered, Answered, delivered-Answered, send_command_overtaken,
}

abbrev conf : DeviceConfig
conf = record {
  allow_connect = true;
  sublist_send = true;
  store = true;
  broadcast = false;
  read_deadline = pos 5;
}

abbrev fresh : Device plain
fresh = new_gt06 plain conf (new_serial 0 358735070001234) []

-- version# with the long s.
abbrev long_version : List ℕ
long_version = b'v' ∷ b'e' ∷ b'R' ∷ 0xc5 ∷ 0xbf ∷ b'i' ∷ b'o' ∷ b'N' ∷ b'#' ∷ []

long_version_folds : should_update_attribute long_version ≡ true
unfolding should_update_attribute equal_fold plain_s lower
long_version_folds = refl

delivered-Answered_example :
    let dev' = delivered plain version_text 7 fresh in
    let r : CommandResponse = record {
      server_flag = (fresh.cmd.server_flag_counter + 1) % 2 ^ 32;
      message = b'x' ∷ [];
    } in
    Answered plain version_text 7 r 9 dev' (handle_command_response plain r 9 dev')
delivered-Answered_example = delivered-Answered plain version_text (b'x' ∷ []) 7 9 fresh

send_command_overtaken_example :
    let written =
      note plain
        (wrote (command_frame plain (submit plain version_text fresh)))
        (submit plain version_text fresh) in
    let r : CommandResponse = record {
      server_flag = (fresh.cmd.server_flag_counter + 1) % 2 ^ 32;
      message = b'x' ∷ [];
    } in
    let answered = handle_command_response plain r 8 written in
    let after =
      mark_sent plain version_text
        (submit plain version_text fresh).cmd.current_server_flag
        9
        answered in
    Answered plain version_text fresh.cmd.sent_time r 8 written answered
    × (send_command plain param_text false 10 after ≡ (after, true, none))
send_command_overtaken_example =
    send_command_overtaken plain version_text param_text (b'x' ∷ []) 8 9 10 fresh
