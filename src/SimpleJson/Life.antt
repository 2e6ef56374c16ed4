-- ===== src/SimpleJson/Life.antt =====
-- The goroutine and connections of a device in internal/gpsv2/device/simplejson/simplejson.go: Run,
-- _run, Stop, ReplaceConn and use_next_conn. Each critical section is one step, to which the
-- `Close` behind it belongs; a connection is a number.
pub mod Spin
mod Runs
use gpstracker_backend.Base.{
  ℕ, zero, suc, Bool, true, false, Option, none, some, List, [], ◌∷◌, ◌++◌, if◌then◌else◌,
}
use gpstracker_backend.Gt06.Life.{
  RunningState, created, running, paused, Stage, starting, reading, choosing, selecting, sleeping,
  ending, Life,
}

-- `Run` sets the state to running itself.
unfoldable pub start : Life → Life
start l = record l { state = running; loops = l.loops ++ starting ∷ [] }

abbrev pub spawned : Life → Life
spawned l = record l { loops = l.loops ++ starting ∷ [] }

abbrev pub close_conn : Life → Life
close_conn l = record l { closed = l.c ∷ l.closed }

-- `c_next` stays as it is.
abbrev pub used_json : Option ℕ → Life → Life × Bool
used_json none l = (l, false)
used_json (some n) l = (record l { c = n }, true)

unfoldable pub use_next_json : Life → Life × Bool
use_next_json l = used_json l.c_next l

abbrev pub chosen_json : Life × Bool → Life × List Stage
chosen_json (l, true) = (l, reading ∷ [])
chosen_json (l, false) = (l, ending ∷ [])

-- The next step of a goroutine, and the stage that it is in then; none when it is over. `run`
-- returns behind `closeAndSetErr`.
unfoldable pub move_json : Stage → Life → Life × List Stage
unfolding use_next_json
move_json starting l = (record l { state = running }, reading ∷ [])
move_json reading l = (close_conn l, choosing ∷ [])
move_json choosing l = (l, (if l.stopped then ending else selecting) ∷ [])
move_json selecting l = chosen_json (use_next_json l)
move_json sleeping l = (l, [])
move_json ending l = (record l { state = paused }, [])

-- The goroutine number `i` takes its step, with `before` the ones in front of it.
abbrev pub moved_json : ℕ → List Stage → List Stage → Life → Life
moved_json i before [] l = l
moved_json zero before (s ∷ after) l =
    let (l', now) = move_json s l in record l' { loops = before ++ (now ++ after) }
moved_json (suc i) before (s ∷ after) l = moved_json i (before ++ s ∷ []) after l

unfoldable pub advance_json : ℕ → Life → Life
unfolding move_json
advance_json i l = moved_json i [] l.loops l

unfoldable pub stop_json : Life → Life
stop_json l = close_conn (record l { stopped = true })

abbrev pub replaced_json : RunningState → ℕ → Life → Life
replaced_json created n l = l
replaced_json running n l = close_conn (record l { c_next = some n })
replaced_json paused n l = spawned (record l { c = n })

unfoldable pub replace_json : ℕ → Life → Life
replace_json n l = replaced_json l.state n l
