-- ===== src/Stat/Runs.antt =====
-- Runs of internal/gps/stat/stat.go, and its theorems at concrete inputs.
use gpstracker_backend.Base.{◌≡◌, refl, List, [], ◌∷◌, ◌==◌, ℕ, take}
use gpstracker_backend.Stat.{new_stat, connect_list, update_list}
use gpstracker_backend.Stat.History.{
  Event, connected, updated, connects, updates, record_all, listed_events,
}

abbrev events : List (Event ℕ)
events =
    connected 1
    ∷ updated 2
    ∷ updated 3
    ∷ updated 4
    ∷ updated 5
    ∷ updated 6
    ∷ updated 7
    ∷ updated 8
    ∷ updated 9
    ∷ connected 10
    ∷ updated 11
    ∷ updated 12
    ∷ updated 13
    ∷ updated 14
    ∷ []

listed_events_example :
    let s = record_all (new_stat 0) events in
    (connect_list 0 (λ t. t == 0) s ≡ take 10 (connects events []))
    × (update_list 0 (λ t. t == 0) s ≡ take 10 (updates events []))
listed_events_example =
    listed_events 0 (λ t. t == 0) events refl (refl, (refl, tt))
      (
        refl,
        (refl, (refl, (refl, (refl, (refl, (refl, (refl, (refl, (refl, (refl, (refl, tt))))))))))),
      )
