-- ===== src/Stat/History.antt =====
-- The operations of internal/gps/stat/stat.go against two histories of events.
use gpstracker_backend.Base.{◌≡◌, Bool, true, false, List, [], ◌∷◌, All, get_or, take}
use gpstracker_backend.Stat.{
  Stat, new_stat, update_ev, connect_ev, connect_last, update_last, connect_list, update_list,
}
use gpstracker_backend.Stat.Ring.{
  Holds, new_time_event-Holds, log-Holds, get_last_event-Holds, get_as_list-Holds,
}

-- An event that a client has logged.
pub data Event (T : Type 0) : Type 0 where
  connected updated : T → Event T

module _ {T : Type 0} where
  -- The logged times of either kind, newest first, before which `h` was logged.
  abbrev pub connects : List (Event T) → List T → List T
  connects [] h = h
  connects (connected t ∷ es) h = connects es (t ∷ h)
  connects (updated t ∷ es) h = connects es h

  abbrev pub updates : List (Event T) → List T → List T
  updates [] h = h
  updates (connected t ∷ es) h = updates es h
  updates (updated t ∷ es) h = updates es (t ∷ h)

  abbrev pub record_all : Stat T → List (Event T) → Stat T
  record_all s [] = s
  record_all s (connected t ∷ es) = record_all (connect_ev s t) es
  record_all s (updated t ∷ es) = record_all (update_ev s t) es

module _ {T : Type 0} (no_time : T) where
  HoldsBoth : Stat T → List T → List T → Type 0
  HoldsBoth s c u = Holds no_time s.connect c × Holds no_time s.update u

  record_all-HoldsBoth :
      (s : Stat T) (es : List (Event T)) (c u : List T)
      → HoldsBoth s c u
      → HoldsBoth (record_all s es) (connects es c) (updates es u)
  unfolding HoldsBoth connect_ev update_ev
  record_all-HoldsBoth s [] c u h = h
  record_all-HoldsBoth s (connected t ∷ es) c u (hc, hu) =
      record_all-HoldsBoth (connect_ev s t) es (t ∷ c) u (log-Holds no_time s.connect c t hc, hu)
  record_all-HoldsBoth s (updated t ∷ es) c u (hc, hu) =
      record_all-HoldsBoth (update_ev s t) es c (t ∷ u) (hc, log-Holds no_time s.update u t hu)

  new_stat-HoldsBoth : HoldsBoth (new_stat no_time) [] []
  unfolding HoldsBoth new_stat
  new_stat-HoldsBoth = (new_time_event-Holds no_time, new_time_event-Holds no_time)

  after :
      (es : List (Event T))
      → HoldsBoth (record_all (new_stat no_time) es) (connects es []) (updates es [])
  after es = record_all-HoldsBoth (new_stat no_time) es [] [] new_stat-HoldsBoth

  -- After any sequence of events, the last connection and the last update are the newest ones of
  -- their kind, or the zero time when there was none.
  pub last_events :
      (es : List (Event T))
      → let s = record_all (new_stat no_time) es in
        (connect_last no_time s ≡ get_or (connects es []) 0 no_time)
        × (update_last no_time s ≡ get_or (updates es []) 0 no_time)
  unfolding connect_last update_last HoldsBoth
  last_events es =
      let (c, u) = after es in
      (get_last_event-Holds no_time _ _ c, get_last_event-Holds no_time _ _ u)

module _ {T : Type 0} (no_time : T) (is_zero : T → Bool) where
  -- After any sequence of events at times other than the zero time, the two lists are the newest
  -- ten connections and the newest ten updates, newest first; fewer when there were fewer.
  pub listed_events :
      (es : List (Event T))
      → is_zero no_time ≡ true
      → All (λ t. is_zero t ≡ false) (connects es [])
      → All (λ t. is_zero t ≡ false) (updates es [])
      → let s = record_all (new_stat no_time) es in
        (connect_list no_time is_zero s ≡ take 10 (connects es []))
        × (update_list no_time is_zero s ≡ take 10 (updates es []))
  unfolding connect_list update_list HoldsBoth
  listed_events es z pc pu =
      let (c, u) = after no_time es in
      (get_as_list-Holds no_time is_zero _ _ z pc c, get_as_list-Holds no_time is_zero _ _ z pu u)
