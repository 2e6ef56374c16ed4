-- ===== src/Webstream/Loops.antt =====
-- The two goroutines that internal/webapp/tracker/webstream/webstream.go starts for a browser, and
-- the handler that waits for both. Each critical section is one step.
use gpstracker_backend.Base.{
  ℕ, Bool, true, false, List, [], ◌∷◌, Option, none, some, length, if◌then◌else◌,
}
use gpstracker_backend.Base.Go.{Error, Result, ok, err, panic, Slice}
use gpstracker_backend.Sublist.{SublistMap}
use gpstracker_backend.Webstream.{
  failed, Client, new_client, close_err, push, handle_message, flush, Delay, update,
}

-- A goroutine goes on, waits for a mutex that nobody gives back, has crashed the process, or has
-- returned.
pub data Reader : Type 0 where
  reading reader_stuck reader_crashed reader_done : Reader

pub data Writer : Type 0 where
  looping : Delay → Writer
  writer_stuck writer_done : Writer

-- `out` has what was written to the browser, the oldest message first in each round, the newest
-- round first.
pub record Stream : Type 0 where
  pub client : Client
  pub map : SublistMap
  pub reader : Reader
  pub writer : Writer
  pub out : List (List (List ℕ))

-- What `serve_http` starts with.
unfoldable pub start_stream : SublistMap → Stream
unfolding new_client
start_stream m = record {
  client = new_client;
  map = m;
  reader = reading;
  writer = looping (record { lower_limit_counter = 0; upper_limit_counter = 0 });
  out = [];
}

-- From what became of a message on.
abbrev read_on : Result (Option (Client × SublistMap)) → Stream → Stream
read_on (ok (some (wc, m))) st = record st { client = wc; map = m }
read_on (ok none) st = record st { reader = reader_stuck }
read_on (err e) st = record st { reader = reader_crashed }
read_on panic st = record st { reader = reader_crashed }

abbrev read_failed : Error → Stream → Stream
read_failed e st =
    if st.client.locked
    then record st { reader = reader_stuck }
    else record st { client = close_err (failed e) st.client; reader = reader_done }

abbrev reader_step : ℕ → Result Slice → Reader → Stream → Stream
reader_step me (ok msg) reading st = read_on (handle_message me msg (st.client, st.map)) st
reader_step me (err e) reading st = read_failed e st
reader_step me panic reading st = st
reader_step me r reader_stuck st = st
reader_step me r reader_crashed st = st
reader_step me r reader_done st = st

-- One round of `readloop`: the browser sends a message, or the read fails.
unfoldable pub read_round : ℕ → Result Slice → Stream → Stream
read_round me r st = reader_step me r st.reader st

abbrev wrote : Delay → ℕ → Client × List (List ℕ) × Bool → Stream → Stream
wrote d l (wc, out, good) st = record st {
  client = wc;
  writer = if good then looping (update l d) else writer_done;
  out = out ∷ st.out;
}

abbrev writer_step : Option ℕ → Writer → Stream → Stream
writer_step fault (looping d) st =
    if st.client.locked
    then record st { writer = writer_stuck }
    else wrote d (length st.client.buf) (flush fault st.client) st
writer_step fault writer_stuck st = st
writer_step fault writer_done st = st

-- One round of `writeLoop`; `fault` is the number of the message whose write fails.
unfoldable pub write_round : Option ℕ → Stream → Stream
write_round fault st = writer_step fault st.writer st

abbrev after_push : Option (Client × Bool) → Stream → Stream
after_push none st = st
after_push (some (wc, closed)) st = record st { client = wc }

pub data Event : Type 0 where
  read_event : Result Slice → Event
  write_event : Option ℕ → Event
  push_event : List ℕ → Event

unfoldable pub step : ℕ → Event → Stream → Stream
unfolding read_round write_round push
step me (read_event r) st = read_round me r st
step me (write_event fault) st = write_round fault st
step me (push_event d) st = after_push (push d st.client) st

unfoldable pub run : ℕ → List Event → Stream → Stream
unfolding step
run me [] st = st
run me (e ∷ es) st = run me es (step me e st)

-- `wg.Wait()` of `serve_http` returns.
abbrev pub both_done : Reader → Writer → Bool
both_done reader_done writer_done = true
both_done reader_done (looping d) = false
both_done reader_done writer_stuck = false
both_done reading w = false
both_done reader_stuck w = false
both_done reader_crashed w = false

unfoldable pub served : Stream → Bool
served st = both_done st.reader st.writer
