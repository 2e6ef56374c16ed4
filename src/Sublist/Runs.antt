-- ===== src/Sublist/Runs.antt =====
-- Runs of internal/gpsv2/sublist/sublist.go, and its theorems at concrete inputs.
use gpstracker_backend.Base.{◌≡◌, refl, ℕ, [], ◌∷◌, ◌==◌, Bool, not, ◌&&◌}
use gpstracker_backend.Sublist.{SublistMap, Sublist, fresh_sublist, send, member}
use gpstracker_backend.Sublist.Members.{reaches, send-send}

-- The trackers 5 and 6, and the handles of 5 with and without a location.
abbrev two : SublistMap
two = record { list = (5, 1 ∷ 2 ∷ []) ∷ (6, 3 ∷ []) ∷ [] }

abbrev five : Sublist
five = fresh_sublist 5

abbrev located : Sublist
located = record { key = 5; location_data = 9 ∷ []; event_data = 1 ∷ [] }

abbrev second_closed : ℕ → Bool
second_closed x = x == 2

send-send_example :
    let (m', pushes) = send 5 (7 ∷ []) second_closed five two in
    (reaches 2 pushes ≡ member 2 (1 ∷ 2 ∷ []))
    × (reaches 2 (send 5 (8 ∷ []) second_closed five m').1
        ≡ (member 2 (1 ∷ 2 ∷ []) && not (second_closed 2)))
send-send_example =
    send-send 2 5 5 (7 ∷ []) (8 ∷ []) second_closed second_closed five two (1 ∷ 2 ∷ []) refl
