-- ===== src/Gt06/Life/Single.antt =====
-- When a device has one goroutine at most.
use gpstracker_backend.Base.{
  ℕ, zero, suc, ◌≡◌, refl, Bool, true, false, Option, none, some, List, [], ◌∷◌, ◌++◌,
  if◌then◌else◌,
}
use gpstracker_backend.Gt06.Life.{
  Life, RunningState, created, running, paused, Stage, starting, reading, choosing, selecting,
  sleeping, ending, spawn, close_current, use_next_conn, used, chosen, move, moved, advance, stop,
  replaced, replace_conn,
}

abbrev pub IsIdle : RunningState → Type 0
IsIdle created = Unit {0}
IsIdle paused = Unit {0}
IsIdle running = ⊥

abbrev pub IsBusy : RunningState → Type 0
IsBusy created = ⊥
IsBusy paused = ⊥
IsBusy running = Unit {0}

abbrev pub Fits : Stage → RunningState → Type 0
Fits starting r = IsIdle r
Fits reading r = IsBusy r
Fits choosing r = IsBusy r
Fits selecting r = IsBusy r
Fits sleeping r = IsBusy r
Fits ending r = IsBusy r

-- There is one goroutine at most, and the state is running exactly when it has begun.
abbrev pub Agrees : List Stage → RunningState → Type 0
Agrees [] r = IsIdle r
Agrees (s ∷ []) r = Fits s r
Agrees (s ∷ t ∷ more) r = ⊥

pub data Action : Type 0 where
  replacing : ℕ → Action
  stopping : Action
  stepping : ℕ → Action

abbrev pub act : Action → Life → Life
act (replacing n) l = replace_conn n l
act stopping l = stop l
act (stepping i) l = advance i l

-- A connection is not replaced while the device has paused and a goroutine is about to begin.
abbrev pub IsOrderly : Action → RunningState → List Stage → Type 0
IsOrderly (replacing n) paused (s ∷ loops) = ⊥
IsOrderly a r loops = Unit {0}

replacing-Agrees :
    (n : ℕ) (r : RunningState) (ls : List Stage) (l : Life)
    → l.loops ≡ ls
    → l.state ≡ r
    → IsOrderly (replacing n) r ls
    → Agrees ls r
    → Agrees (replaced r n l).loops (replaced r n l).state
unfolding spawn close_current
replacing-Agrees n created ls l e f o h = rw (e, f) h
replacing-Agrees n running ls l e f o h = rw (e, f) h
replacing-Agrees n paused [] l e f o h = rw (e, f) tt
replacing-Agrees n paused (s ∷ ls) l e f o h = absurd o

chosen-Agrees :
    (o : Option ℕ) (l : Life)
    → IsBusy l.state
    → let (l', now) = chosen (used o l) in Agrees now l'.state
chosen-Agrees none l h = h
chosen-Agrees (some n) l h = h

choosing-Agrees :
    (b : Bool) (l : Life) → IsBusy l.state → Agrees ((if b then ending else selecting) ∷ []) l.state
choosing-Agrees true l h = h
choosing-Agrees false l h = h

move-Agrees :
    (s : Stage) (l : Life) → Fits s l.state → let (l', now) = move s l in Agrees now l'.state
unfolding move use_next_conn close_current
move-Agrees starting l h = tt
move-Agrees reading l h = h
move-Agrees choosing l h = choosing-Agrees l.stopped l h
move-Agrees selecting l h = chosen-Agrees l.c_next l h
move-Agrees sleeping l h = h
move-Agrees ending l h = tt

append_nil : (xs : List Stage) → xs ++ [] ≡ xs
append_nil [] = refl
append_nil (x ∷ xs) = λ i. x ∷ append_nil xs i

moved-Agrees :
    (i : ℕ) (ls : List Stage) (l : Life)
    → l.loops ≡ ls
    → Agrees ls l.state
    → Agrees (moved i [] ls l).loops (moved i [] ls l).state
moved-Agrees i [] l e h = rw e h
moved-Agrees zero (s ∷ []) l e h = rw (append_nil (move s l).1) (move-Agrees s l h)
moved-Agrees (suc i) (s ∷ []) l e h = rw e h
moved-Agrees i (s ∷ t ∷ more) l e h = absurd h

-- Every action, save a replacement of the connection while a goroutine is about to begin on a device
-- that has paused, keeps this: there is one goroutine at most, and the state is running exactly
-- while that is between its first and its last step.
pub act-Agrees :
    (a : Action) (l : Life)
    → IsOrderly a l.state l.loops
    → Agrees l.loops l.state
    → Agrees (act a l).loops (act a l).state
unfolding replace_conn advance stop close_current
act-Agrees (replacing n) l o h = replacing-Agrees n l.state l.loops l refl refl o h
act-Agrees stopping l o h = h
act-Agrees (stepping i) l o h = moved-Agrees i l.loops l refl h
