-- ===== src/Gt06/Device/Runs.antt =====
-- Runs of the loop of internal/gpsv2/device/gt06/gt06.go, and its theorems at concrete inputs.
use gpstracker_backend.Base.Int.{pos}
use gpstracker_backend.Base.{ℕ, ◌++◌, map, refl, ◌≡◌, List, [], ◌∷◌, true, false, arith}
use gpstracker_backend.Base.Go.{Input, byte, late, read_full}
use gpstracker_backend.Base.Values.{plain}
use gpstracker_backend.Device.{new_serial}
use gpstracker_backend.Gt06.Frame.{read_message, new_frame, new_command}
use gpstracker_backend.Gt06.State.{
  command_sent_topic, flag_detail, wrote, saved_event, DeviceConfig, Device, new_gt06,
}
use gpstracker_backend.Gt06.Parser.Fields.{RawPosition, IsRaw, IsCell}
use gpstracker_backend.Gt06.Device.Located.{
  Report, payload, says, effects_for, reports, all_effects, last_says, place, run-reports,
}
use gpstracker_backend.Gt06.Device.{
  go, event_run, get_location, Outside, run, rounds, after_read, iterate, status_command,
}
use gpstracker_backend.Gt06.Device.Repeat.{run-late}
use gpstracker_backend.Gt06.Message.{gt06_gps}
use gpstracker_backend.Gt06.Command.{put_u32}
use gpstracker_backend.Gt06.Device.Stops.{IsOver, run-IsOver}
use gpstracker_backend.Gt06.Device.Closes.{LeftBy, run-LeftBy}

abbrev conf : DeviceConfig
conf = record {
  allow_connect = true;
  sublist_send = true;
  store = true;
  broadcast = false;
  read_deadline = pos 5;
}

abbrev fresh : Device plain
fresh = new_gt06 plain conf (new_serial 0 358735070001234) []

abbrev outside : Outside plain
outside = record {
  year = λ t. t;
  month = λ t. 1;
  day = λ t. 2;
  hour = λ t. 3;
  minute = λ t. 4;
  second = λ t. 5;
  marshal = λ si. 123 ∷ 125 ∷ [];
}

-- A deadline passes, a start byte comes, and a deadline passes again.
abbrev stream : List Input
stream = late ∷ byte 0x78 ∷ late ∷ []

run-IsOver_example : IsOver (run plain outside 2020 (1 ∷ 2 ∷ 3 ∷ 4 ∷ []) stream fresh).2
run-IsOver_example = run-IsOver plain outside 2020 (1 ∷ 2 ∷ 3 ∷ 4 ∷ []) stream fresh (omega arith)

run-LeftBy_example :
    LeftBy plain outside
      (1 ∷ 2 ∷ [])
      ([], event_run plain 2020 fresh, go false)
      (run plain outside 2020 (1 ∷ 2 ∷ []) [] fresh)
unfolding event_run
run-LeftBy_example = run-LeftBy plain outside 2020 (1 ∷ 2 ∷ []) [] fresh (
    unfold run in
    unfold rounds in
    unfold iterate in
    unfold after_read in unfold read_message in unfold read_full in unfold new_gt06 in refl)

abbrev raw : RawPosition
raw = record {
  year = 23;
  month = 5;
  day = 17;
  hour = 8;
  minute = 30;
  second = 1;
  info = 12;
  sats = 9;
  lat = 11000000;
  lon = 192000000;
  kmh = 40;
  differential = false;
  positioned = true;
  west = false;
  north = false;
  course = 300;
}

abbrev report : ℕ → Report plain
report t = record {
  raw = raw;
  cell = record { mcc = 510; mnc = 10; lac = 0x1234; cell_id = 0x0a0b0c };
  serial = 7;
  read = t;
}

abbrev raw_fits : IsRaw raw
raw_fits = record {
  sats_fit = omega arith;
  lat_fit = omega arith;
  lon_fit = omega arith;
  course_fit = omega arith;
}

abbrev cell_fits : IsCell (record { mcc = 510; mnc = 10; lac = 0x1234; cell_id = 0x0a0b0c })
cell_fits = record { mcc_fit = omega arith; lac_fit = omega arith; cell_fit = omega arith }

abbrev two : List (Report plain)
two = report 2020 ∷ report 2021 ∷ []

run-reports_example :
    let out = run plain outside 2019 (2020 ∷ 2021 ∷ []) (reports plain two []) fresh in
    (out.0 ≡ [])
    × (out.1.effects
        ≡ all_effects plain fresh.conf fresh.ser fresh.location.loc.cell two
            (event_run plain 2019 fresh).effects)
    × (out.2 ≡ go false)
    × (get_location plain out.1 ≡ place plain (last_says plain two fresh.location.loc))
unfolding new_gt06
run-reports_example = run-reports plain outside 2019 two [] fresh refl (
  record { raw_fits = raw_fits; cell_fits = cell_fits },
  (record { raw_fits = raw_fits; cell_fits = cell_fits }, tt),
)

run-late_example :
    let x = report 2020 in
    let frame = new_frame plain.checksum_x25 gt06_gps (payload plain x) 7 in
    let out =
      run plain outside 2019 (2020 ∷ 2050 ∷ []) (map byte frame ++ late ∷ byte 1 ∷ []) fresh in
    (out.0 ≡ byte 1 ∷ [])
    × (out.2 ≡ go true)
    × (out.1.effects
        ≡ effects_for plain fresh.conf fresh.ser x.cell (says plain x) 2050
          ++ saved_event command_sent_topic status_command (flag_detail 1) 2050
            ∷ wrote (new_command plain.checksum_x25 status_command (put_u32 1) 1)
            ∷ (effects_for plain fresh.conf fresh.ser fresh.location.loc.cell (says plain x) 2020
                ++ (event_run plain 2019 fresh).effects))
unfolding new_gt06
run-late_example =
    run-late plain outside 2019 2050 (report 2020) (byte 1 ∷ []) fresh refl
      (record { raw_fits = raw_fits; cell_fits = cell_fits }) tt
