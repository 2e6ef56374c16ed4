-- ===== src/Web/Api.antt =====
-- The functions that internal/webapp/api.go adds to the dispatcher, and its routes.
use gpstracker_backend.Base.{Bool, true, false, List, [], ◌∷◌, none, some}
use gpstracker_backend.Base.Texts.{Text}
use gpstracker_backend.Web.Tables.{Out}
use gpstracker_backend.Web.Dispatcher.{
  Attributes, Reply, no_results, Function, add, tracker_monitor, tracker_admin,
}

-- The functions by their names.
pub data Name : Type 0 where
  get_trackers get_tracker_detail get_tracker_event get_gt06_cmd_history
        get_tracker_current_conn_info get_tracker_location_history :
      Name
  send_command2 edit_tracker_settings set_tracker_name purge_tracker create_ws_token get_ws_token :
      Name

abbrev pub text_of : Name → Text
text_of get_trackers =
    b'G' ∷ b'e' ∷ b't' ∷ b'T' ∷ b'r' ∷ b'a' ∷ b'c' ∷ b'k' ∷ b'e' ∷ b'r' ∷ b's' ∷ []
text_of get_tracker_detail =
    b'G' ∷ b'e' ∷ b't' ∷ b'T' ∷ b'r' ∷ b'a' ∷ b'c' ∷ b'k' ∷ b'e' ∷ b'r' ∷ b'D' ∷ b'e' ∷ b't' ∷ b'a'
    ∷ b'i' ∷ b'l' ∷ []
text_of get_tracker_event =
    b'G' ∷ b'e' ∷ b't' ∷ b'T' ∷ b'r' ∷ b'a' ∷ b'c' ∷ b'k' ∷ b'e' ∷ b'r' ∷ b'E' ∷ b'v' ∷ b'e' ∷ b'n'
    ∷ b't' ∷ []
text_of get_gt06_cmd_history =
    b'G' ∷ b'e' ∷ b't' ∷ b'G' ∷ b'T' ∷ b'0' ∷ b'6' ∷ b'C' ∷ b'm' ∷ b'd' ∷ b'H' ∷ b'i' ∷ b's' ∷ b't'
    ∷ b'o' ∷ b'r' ∷ b'y' ∷ []
text_of get_tracker_current_conn_info =
    b'G' ∷ b'e' ∷ b't' ∷ b'T' ∷ b'r' ∷ b'a' ∷ b'c' ∷ b'k' ∷ b'e' ∷ b'r' ∷ b'C' ∷ b'u' ∷ b'r' ∷ b'r'
    ∷ b'e' ∷ b'n' ∷ b't' ∷ b'C' ∷ b'o' ∷ b'n' ∷ b'n' ∷ b'I' ∷ b'n' ∷ b'f' ∷ b'o' ∷ []
text_of get_tracker_location_history =
    b'G' ∷ b'e' ∷ b't' ∷ b'T' ∷ b'r' ∷ b'a' ∷ b'c' ∷ b'k' ∷ b'e' ∷ b'r' ∷ b'L' ∷ b'o' ∷ b'c' ∷ b'a'
    ∷ b't' ∷ b'i' ∷ b'o' ∷ b'n' ∷ b'H' ∷ b'i' ∷ b's' ∷ b't' ∷ b'o' ∷ b'r' ∷ b'y' ∷ []
text_of send_command2 =
    b'S' ∷ b'e' ∷ b'n' ∷ b'd' ∷ b'C' ∷ b'o' ∷ b'm' ∷ b'm' ∷ b'a' ∷ b'n' ∷ b'd' ∷ b'2' ∷ []
text_of edit_tracker_settings =
    b'E' ∷ b'd' ∷ b'i' ∷ b't' ∷ b'T' ∷ b'r' ∷ b'a' ∷ b'c' ∷ b'k' ∷ b'e' ∷ b'r' ∷ b'S' ∷ b'e' ∷ b't'
    ∷ b't' ∷ b'i' ∷ b'n' ∷ b'g' ∷ b's' ∷ []
text_of set_tracker_name =
    b'S' ∷ b'e' ∷ b't' ∷ b'T' ∷ b'r' ∷ b'a' ∷ b'c' ∷ b'k' ∷ b'e' ∷ b'r' ∷ b'N' ∷ b'a' ∷ b'm' ∷ b'e'
    ∷ []
text_of purge_tracker =
    b'P' ∷ b'u' ∷ b'r' ∷ b'g' ∷ b'e' ∷ b'T' ∷ b'r' ∷ b'a' ∷ b'c' ∷ b'k' ∷ b'e' ∷ b'r' ∷ []
text_of create_ws_token =
    b'C' ∷ b'r' ∷ b'e' ∷ b'a' ∷ b't' ∷ b'e' ∷ b'W' ∷ b's' ∷ b'T' ∷ b'o' ∷ b'k' ∷ b'e' ∷ b'n' ∷ []
text_of get_ws_token = b'G' ∷ b'e' ∷ b't' ∷ b'W' ∷ b's' ∷ b'T' ∷ b'o' ∷ b'k' ∷ b'e' ∷ b'n' ∷ []

-- `ChangePassword`, which has a route of its own.
abbrev pub change_password_text : Text
change_password_text =
    b'C' ∷ b'h' ∷ b'a' ∷ b'n' ∷ b'g' ∷ b'e' ∷ b'P' ∷ b'a' ∷ b's' ∷ b's' ∷ b'w' ∷ b'o' ∷ b'r' ∷ b'd'
    ∷ []

-- What the functions do, and which bodies they accept.
pub record Handlers (S : Type 0) : Type 0 where
  pub does : Name → Attributes → Text → S → S × List Out × Reply
  pub accepts : Name → Text → Bool

module _ {S : Type 0} where
  -- A function without a result: what its handler says of one is dropped.
  abbrev pub without_result : S × List Out × Reply → S × List Out × Reply
  without_result (s, outs, r) = (s, outs, no_results)

  abbrev added : Handlers S → Name → Text → List (Text × Function S) → List (Text × Function S)
  added h n role fs =
      add (text_of n)
        (record {
          request_ok = some (h.accepts n);
          raw_response = false;
          role = role;
          handler = h.does n;
        })
        fs

  abbrev added_plain :
      Handlers S → Name → Text → List (Text × Function S) → List (Text × Function S)
  added_plain h n role fs =
      add (text_of n)
        (record { request_ok = none; raw_response = false; role = role; handler = h.does n }) fs

  abbrev added_raw : Handlers S → Name → Text → List (Text × Function S) → List (Text × Function S)
  added_raw h n role fs =
      add (text_of n)
        (record {
          request_ok = some (h.accepts n);
          raw_response = true;
          role = role;
          handler = h.does n;
        })
        fs

  abbrev added_silent :
      Handlers S → Name → Text → List (Text × Function S) → List (Text × Function S)
  added_silent h n role fs =
      add (text_of n)
        (record {
          request_ok = some (h.accepts n);
          raw_response = false;
          role = role;
          handler = λ a req s. without_result (h.does n a req s);
        })
        fs

  -- `NewApi`
  unfoldable pub api_functions : Handlers S → List (Text × Function S)
  unfolding add
  api_functions h =
      let f1 = added_plain h get_trackers tracker_monitor [] in
      let f2 = added h get_tracker_detail tracker_monitor f1 in
      let f3 = added h get_tracker_event tracker_monitor f2 in
      let f4 = added h get_gt06_cmd_history tracker_monitor f3 in
      let f5 = added h get_tracker_current_conn_info tracker_monitor f4 in
      let f6 = added_raw h get_tracker_location_history tracker_monitor f5 in
      let f7 = added h send_command2 tracker_admin f6 in
      let f8 = added h edit_tracker_settings tracker_admin f7 in
      let f9 = added h set_tracker_name tracker_admin f8 in
      let f10 = added_silent h purge_tracker tracker_admin f9 in
      let f11 = added_plain h create_ws_token tracker_monitor f10 in
      let f12 = added_plain h get_ws_token tracker_monitor f11 in f12
