-- ===== src/ServerImpl/Runs.antt =====
-- The theorems on the older server at concrete inputs.
use gpstracker_backend.Base.{◌≡◌, refl, false, [], ◌∷◌, none}
use gpstracker_backend.Base.Texts.{Text}
use gpstracker_backend.ServerImpl.{
  Row, ServerImpl, accepted, stuck, login, get_clients_status, get_client_status,
}
use gpstracker_backend.ServerImpl.Lockup.{login-login}

abbrev imei : Text
imei = 105 ∷ []

abbrev tracker : Row
tracker = record { id = 4; sn_type = imei; serial_number = 77; fsn = 102 ∷ [] }

abbrev fresh_server : ServerImpl
fresh_server = record {
  rows = tracker ∷ [];
  next_id = 5;
  faults = [];
  list_locked = false;
  sessions = [];
  states = [];
}

login-login_example :
    let (s1, e1) = login imei 77 1 fresh_server in
    let (s2, e2) = login imei 77 2 s1 in
    (e1 ≡ accepted 4)
    × (e2 ≡ accepted 4)
    × ((login imei 78 3 s2).1 ≡ stuck)
    × (get_clients_status s2 ≡ none)
    × (get_client_status 4 s2 ≡ none)
login-login_example = login-login imei 77 1 2 tracker fresh_server imei 78 3 4 refl refl refl refl
