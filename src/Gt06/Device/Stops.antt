-- ===== src/Gt06/Device/Stops.antt =====
-- The loop of `run` ends: a stream of n inputs is handled in at most n + 1 rounds.
use gpstracker_backend.Base.{◌<◌, ◌⊎◌, Bool, true, false, List, [], ◌∷◌, length, inl, inr, arith}
use gpstracker_backend.Base.Go.{Result, Input}
use gpstracker_backend.Base.Values.{Values}
use gpstracker_backend.Gt06.State.{Device}
use gpstracker_backend.Gt06.Frame.Progress.{Quits, read_message_progress}
use gpstracker_backend.Gt06.Device.{
  Next, go, returned, crashed, Outside, after_read, iterate, rounds, run, event_run,
}

-- The loop is over.
abbrev pub IsOver : Next → Type 0
IsOver (go sent) = ⊥
IsOver returned = Unit {0}
IsOver crashed = Unit {0}

module _ (V : Values) (O : Outside V) where
  open V use {Time}

  after_read-IsOver :
      (sent : Bool) (t : Time) (r : Result (Unit {0})) (dev : Device V)
      → Quits r
      → IsOver (after_read V O sent t r dev).1
  unfolding after_read
  after_read-IsOver true t r dev (inl e) = rw e tt
  after_read-IsOver false t r dev (inl e) = rw e tt
  after_read-IsOver true t r dev (inr (inl e)) = rw e tt
  after_read-IsOver false t r dev (inr (inl e)) = rw e tt
  after_read-IsOver true t r dev (inr (inr e)) = rw e tt
  after_read-IsOver false t r dev (inr (inr e)) = rw e tt

  iterate_progress :
      (sent : Bool) (t : Time) (s : List Input) (dev : Device V)
      → (length (iterate V O sent t s dev).0 < length s) ⊎ IsOver (iterate V O sent t s dev).2
  unfolding iterate
  iterate_progress sent t s dev = elim (read_message_progress s dev.msg) [
    | inl less ↦ inl less
    | inr q ↦ inr (after_read-IsOver sent t _ _ q)
  ]

  rounds-IsOver :
      (ts : List Time) (s : List Input) (dev : Device V) (next : Next)
      → (length s < length ts) ⊎ IsOver next
      → IsOver (rounds V O ts (s, dev, next)).2
  unfolding rounds
  rounds-IsOver [] s dev next (inl h) = absurd (omega arith)
  rounds-IsOver [] s dev next (inr h) = h
  rounds-IsOver (t ∷ ts) s dev returned h = rounds-IsOver ts s dev returned (inr tt)
  rounds-IsOver (t ∷ ts) s dev crashed h = rounds-IsOver ts s dev crashed (inr tt)
  rounds-IsOver (t ∷ ts) s dev (go sent) (inr h) = absurd h
  rounds-IsOver (t ∷ ts) s dev (go sent) (inl h) =
      rounds-IsOver ts (iterate V O sent t s dev).0 (iterate V O sent t s dev).1
        (iterate V O sent t s dev).2
        (elim (iterate_progress sent t s dev) [
          | inl less ↦ inl (omega arith)
          | inr over ↦ inr over
        ])

  -- Whatever the device sends and whichever writes fail, `run` is over after at most one round more
  -- than the stream has inputs.
  pub run-IsOver :
      (t0 : Time) (ts : List Time) (s : List Input) (dev : Device V)
      → length s < length ts
      → IsOver (run V O t0 ts s dev).2
  unfolding run
  run-IsOver t0 ts s dev h = rounds-IsOver ts s (event_run V t0 dev) (go false) (inl h)
