-- ===== src/Webstream/Runs.antt =====
-- Runs of internal/webapp/tracker/webstream/webstream.go, and its theorems at concrete inputs.
use gpstracker_backend.Base.{List, ◌≡◌, refl, [], ◌∷◌, ◌++◌, true, false, none, some}
use gpstracker_backend.Base.Go.{eof, ok, err}
use gpstracker_backend.Base.Texts.{Text}
use gpstracker_backend.Web.Tables.{Db}
use gpstracker_backend.Web.Sessions.{logout}
use gpstracker_backend.Web.Tracker.{get_ws_token, create_ws_token}
use gpstracker_backend.Sublist.{SublistMap, fresh_sublist}
use gpstracker_backend.Webstream.{Client, new_client, flush, Delay}
use gpstracker_backend.Webstream.Buffer.{push_all, flush-push_all}
use gpstracker_backend.Webstream.Loops.{
  start_stream, Event, read_event, write_event, push_event, run, served,
}
use gpstracker_backend.Webstream.Leak.{served-run}
use gpstracker_backend.Webstream.Door.{entered, turned_away, serve_http}
use gpstracker_backend.Webstream.Admission.{serve_http-create_ws_token}

abbrev waiting : Client
waiting = record {
  closed = false;
  locked = false;
  reason = none;
  buf = (1 ∷ []) ∷ (2 ∷ []) ∷ [];
  subs =
      (1, fresh_sublist 1)
      ∷ (2, fresh_sublist 2)
      ∷ (3, fresh_sublist 3)
      ∷ (4, fresh_sublist 4)
      ∷ (5, fresh_sublist 5)
      ∷ [];
}

abbrev shut : Client
shut = record waiting { closed = true }

abbrev trackers : SublistMap
trackers = record { list = (7, 4 ∷ []) ∷ [] }

flush-push_all_example :
    (wc' : Client) × (push_all ((3 ∷ []) ∷ []) waiting ≡ some wc')
    × (flush none wc' ≡ (record waiting { buf = [] }, waiting.buf ++ (3 ∷ []) ∷ [], true))
flush-push_all_example = flush-push_all ((3 ∷ []) ∷ []) waiting refl refl

abbrev calm : Delay
calm = record { lower_limit_counter = 0; upper_limit_counter = 3 }

abbrev later_events : List Event
later_events = push_event (1 ∷ []) ∷ write_event none ∷ write_event (some 0) ∷ []

served-run_example :
    served (run 9 (read_event (err eof) ∷ later_events) (start_stream trackers)) ≡ false
unfolding start_stream new_client
served-run_example =
    served-run 9 eof later_events (start_stream trackers)
      (record { lower_limit_counter = 0; upper_limit_counter = 0 }) refl refl refl refl

abbrev one_session : Db
one_session = record {
  users = [];
  sessions = record { session_id = 5 ∷ []; user_id = 1; valid_until = 50 } ∷ [];
  faults = [];
}

abbrev old_tokens : List (Text × Text)
old_tokens = (5 ∷ [], 8 ∷ []) ∷ []

serve_http-create_ws_token_example :
    let (tokens', r) = create_ws_token false (5 ∷ []) (9 ∷ []) old_tokens in
    (r ≡ ok (9 ∷ []))
    × (get_ws_token false (5 ∷ []) tokens' ≡ ok (9 ∷ []))
    × ((serve_http true (ok (9 ∷ [])) 40 tokens' one_session).1 ≡ entered (5 ∷ []))
    × ((serve_http true (ok (9 ∷ [])) 41 tokens' (logout (some (5 ∷ [])) one_session).0).1
        ≡ turned_away)
serve_http-create_ws_token_example =
    serve_http-create_ws_token (5 ∷ []) (9 ∷ []) old_tokens 40 41 one_session refl refl refl
