-- ===== src/Web/Tracker/Runs.antt =====
-- The theorems on the trackers' functions at concrete inputs.
use gpstracker_backend.Base.{
  ℕ, suc, ◌*◌, ◌%◌, ◌^◌, ◌≡◌, refl, true, false, List, [], ◌∷◌, ◌++◌, map, length, take, none, some,
  arith,
}
use mathlib.Core.List.{Perm}
use gpstracker_backend.Base.Go.{ok}
use gpstracker_backend.Base.Int.{pos}
use gpstracker_backend.Base.Values.{plain}
use gpstracker_backend.Gt06.State.{DeviceConfig}
use gpstracker_backend.Server.{lookup}
use gpstracker_backend.Sublist.{little}
use gpstracker_backend.Web.Tracker.{
  flag, number, Object, TrackerConfigs, allow_connect_key, store_key, read_deadline_key, merge,
  read_config,
}
use gpstracker_backend.Web.Tracker.Settings.{read_config-merge}
use gpstracker_backend.Web.Tracker.Paging.{PageRequest, TrackerEventModel, event_columns}
use gpstracker_backend.Web.Tracker.Paging.Order.{IsDescending}
use gpstracker_backend.Web.Tracker.Paging.Complete.{follow, rows_below, ordered, follow-take}
use gpstracker_backend.Web.Tracker.History.{Client, LocationRow, get_tracker_location_history}
use gpstracker_backend.Web.Tracker.History.Whole.{
  all_bytes, all_counts, count_or_zero, rows_from, get_tracker_location_history_whole,
}

abbrev stored : Object
stored =
    (allow_connect_key, flag true)
    ∷ (store_key, flag true)
    ∷ (read_deadline_key, number (pos 5))
    ∷ []

abbrev no_store : TrackerConfigs
no_store = record {
  allow_connect = none;
  sublist_send = some true;
  store = some false;
  broadcast = none;
  log_level = none;
  read_deadline = some (pos 60);
}

abbrev conf : DeviceConfig
conf = record {
  allow_connect = true;
  sublist_send = false;
  store = true;
  broadcast = false;
  read_deadline = pos 5;
}

read_config-merge_example :
    read_config (merge no_store stored)
    ≡ ok (record {
      allow_connect = true;
      sublist_send = false;
      store = false;
      broadcast = false;
      read_deadline = pos 60;
    })
read_config-merge_example = read_config-merge no_store stored conf (refl, refl, refl, refl, refl)

abbrev event : ℕ → TrackerEventModel
event n = record {
  id = n;
  tracker_id = 1;
  event_type = [];
  message = [];
  message_json = [];
  event_timestamp = n;
}

abbrev events : List TrackerEventModel
events = event 7 ∷ event 9 ∷ event 4 ∷ []

abbrev by_twos : PageRequest
by_twos = record { tracker_id = 1; timestamp = none; pointer = 0; limit = pos 2 }

follow-take_example :
    let rows = ordered event_columns 5 by_twos events 8 in
    IsDescending event_columns.id_of rows
    × Perm (rows_below event_columns 5 by_twos events 8) rows
    × (follow event_columns 5 by_twos events 2 8 ≡ take (2 * suc 1) rows)
follow-take_example =
    follow-take event_columns 5 by_twos events 2 1 8 refl (omega arith)
      ((omega arith, (omega arith, tt)), ((omega arith, tt), (tt, tt)))
      (omega arith, (omega arith, (omega arith, tt)))

abbrev place : ℕ → LocationRow plain
place n = record { nsn = n; lat = 52; lon = 13; alt = 0; speed = 1; gps_time = 7; server_time = 8 }

abbrev nobody : Client
nobody = record { written = []; faults = [] }

-- A text for any counts.
abbrev braces : List (ℕ × ℕ) → List ℕ
braces c = 123 ∷ 125 ∷ []

get_tracker_location_history_whole_example :
    let rows = place 3 ∷ place 3 ∷ place 4 ∷ [] in
    let counts = braces (all_counts plain rows []) in
    (get_tracker_location_history plain braces 2 false (map some rows) nobody ≡ (
      record {
        written =
            ((nobody.written ++ all_bytes plain rows) ++ counts)
            ++ little 4 (length counts % 2 ^ 32);
        faults = [];
      },
      false,
    ))
    × (count_or_zero (lookup 3 (all_counts plain rows [])) ≡ rows_from plain 3 rows)
get_tracker_location_history_whole_example =
    get_tracker_location_history_whole plain braces 2 3 (place 3 ∷ place 3 ∷ place 4 ∷ []) nobody
      refl
