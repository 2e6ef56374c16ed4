-- ===== src/Gt06/Life.antt =====
-- The goroutines and connections of a device in internal/gpsv2/device/gt06/gt06.go: Run, _run, Stop,
-- ReplaceConn and use_next_conn. Each critical section is one step, to which the `Close` behind it
-- belongs; a goroutine of `_run` is the stage that it is in, and a connection is a number.
pub mod Handover
pub mod Single
mod Runs
use gpstracker_backend.Base.{
  ℕ, zero, suc, Bool, true, false, Option, none, some, List, [], ◌∷◌, ◌++◌, if◌then◌else◌,
}

pub data RunningState : Type 0 where
  created running paused : RunningState

-- A goroutine is about to set the state to running, is inside `run`, has come back from it, has seen
-- that the device is not stopped, sleeps before it calls `run` again, or is about to set the state
-- to paused.
pub data Stage : Type 0 where
  starting reading choosing selecting sleeping ending : Stage

pub record Life : Type 0 where
  pub state : RunningState
  pub stopped : Bool
  pub c : ℕ
  pub c_next : Option ℕ
  pub closed : List ℕ
  pub loops : List Stage

-- `Run`, and the other `go gt06._run()`.
unfoldable pub spawn : Life → Life
spawn l = record l { loops = l.loops ++ starting ∷ [] }

-- `closeAndSetErr` and `c.Close`
unfoldable pub close_current : Life → Life
close_current l = record l { closed = l.c ∷ l.closed }

abbrev used : Option ℕ → Life → Life × Bool
used none l = (l, false)
used (some n) l = (record l { c = n; c_next = none }, true)

unfoldable pub use_next_conn : Life → Life × Bool
use_next_conn l = used l.c_next l

-- `_run` behind `use_next_conn`.
abbrev chosen : Life × Bool → Life × List Stage
chosen (l, true) = (l, sleeping ∷ [])
chosen (l, false) = (l, ending ∷ [])

-- The next step of a goroutine, and the stage that it is in then; none when it is over.
unfoldable pub move : Stage → Life → Life × List Stage
unfolding use_next_conn close_current
move starting l = (record l { state = running }, reading ∷ [])
move reading l = (close_current l, choosing ∷ [])
move choosing l = (l, (if l.stopped then ending else selecting) ∷ [])
move selecting l = chosen (use_next_conn l)
move sleeping l = (l, reading ∷ [])
move ending l = (record l { state = paused }, [])

-- The goroutine number `i` takes its step, with `before` the ones in front of it.
abbrev moved : ℕ → List Stage → List Stage → Life → Life
moved i before [] l = l
moved zero before (s ∷ after) l =
    let (l', now) = move s l in record l' { loops = before ++ (now ++ after) }
moved (suc i) before (s ∷ after) l = moved i (before ++ s ∷ []) after l

unfoldable pub advance : ℕ → Life → Life
unfolding move
advance i l = moved i [] l.loops l

unfoldable pub stop : Life → Life
unfolding close_current
stop l = close_current (record l { stopped = true })

abbrev replaced : RunningState → ℕ → Life → Life
replaced created n l = l
replaced running n l = close_current (record l { c_next = some n })
replaced paused n l = spawn (record l { c = n })

unfoldable pub replace_conn : ℕ → Life → Life
unfolding spawn close_current
replace_conn n l = replaced l.state n l
