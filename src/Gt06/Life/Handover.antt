-- ===== src/Gt06/Life/Handover.antt =====
-- What becomes of a connection that replaces another one.
use gpstracker_backend.Base.{ℕ, ◌≡◌, refl, false, none, some, List, [], ◌∷◌}
use gpstracker_backend.Gt06.Life.{
  Life, running, paused, reading, ending, spawn, close_current, use_next_conn, move, advance,
  replace_conn,
}

-- A device that reads from the connection `c`.
abbrev pub reads : ℕ → List ℕ → Life
reads c closed = record {
  state = running;
  stopped = false;
  c = c;
  c_next = none;
  closed = closed;
  loops = reading ∷ [];
}

-- A device whose goroutine has ended.
abbrev pub rests : ℕ → List ℕ → Life
rests c closed = record {
  state = paused;
  stopped = false;
  c = c;
  c_next = none;
  closed = closed;
  loops = [];
}

-- A connection that replaces the one a device reads from closes that, and after the four steps of
-- the goroutine's round the device reads from the new one; a device whose goroutine has ended reads
-- from the new one after one step.
pub replace_conn-reads :
    (n c : ℕ) (closed : List ℕ)
    → (advance 0 (advance 0 (advance 0 (advance 0 (replace_conn n (reads c closed)))))
        ≡ reads n (c ∷ c ∷ closed))
      × (advance 0 (replace_conn n (rests c closed)) ≡ reads n closed)
unfolding advance move replace_conn use_next_conn close_current spawn
replace_conn-reads n c closed = (refl, refl)

-- The device as its goroutine has seen that no connection waits, before it says that it has paused.
abbrev pub ends : ℕ → List ℕ → Life
ends c closed = record (reads c closed) { loops = ending ∷ [] }

-- Two races. A connection that replaces another while the goroutine is about to pause is left
-- waiting: no goroutine is there to read it. Two that replace one another before the new goroutine
-- has begun make two goroutines, which both read from the later one.
pub replace_conn_races :
    (n m c : ℕ) (closed : List ℕ)
    → (advance 0 (replace_conn n (ends c closed))
        ≡ record (rests c (c ∷ closed)) { c_next = some n })
      × (advance 1 (advance 0 (replace_conn m (replace_conn n (rests c closed))))
          ≡ record (reads m closed) { loops = reading ∷ reading ∷ [] })
unfolding advance move replace_conn spawn close_current
replace_conn_races n m c closed = (refl, refl)
