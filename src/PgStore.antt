-- ===== src/PgStore.antt =====
-- internal/store/impl/pgstore/pgstore.go: locations are gathered in a buffer, which `flush` hands
-- to the goroutine of `handle` through `rbuf` and a condition variable. Each critical section is
-- one step. The database is the parameter that `finish` carries: whether `CopyFrom` succeeds.
pub mod Gather
pub mod Delivery
pub mod Calm
mod Runs
use gpstracker_backend.Base.{
  ℕ, zero, suc, ◌+◌, ◌-◌, Bool, true, false, List, [], ◌∷◌, ◌++◌, length, ltb, ◌==◌, not, ◌&&◌,
  if◌then◌else◌,
}

pub record StoreConfig : Type 0 where
  pub buf_size : ℕ
  pub max_age_flush : ℕ

pub record Location (F64 F32 Time : Type 0) : Type 0 where
  pub nsn : ℕ
  pub lon : F64
  pub lat : F64
  pub alt : F32
  pub speed : F32
  pub gpst : Time
  pub srvt : Time

-- Times of the clock are numbers of nanoseconds.
pub record Buffer (R : Type 0) : Type 0 where
  pub seq : ℕ
  pub t1 : ℕ
  pub t2 : ℕ
  pub buf : List R

-- What the goroutine of `handle` does: it is about to call `Wait`, it waits for a signal, it has one
-- and is about to read `rbuf`, or it copies a buffer to the database.
pub data Handler (R : Type 0) : Type 0 where
  starting : Handler R
  waiting : Handler R
  woken : Handler R
  copying : Buffer R → Handler R

-- `saved` is what the database took; `flushed` is the history of `rbuf`, which only the theorems
-- read. Both have the newest first.
pub record PgStore (R : Type 0) : Type 0 where
  pub config : StoreConfig
  pub rbuf : Buffer R
  pub wbuf : Buffer R
  pub handler : Handler R
  pub saved : List (Buffer R)
  pub flushed : List (Buffer R)

module _ {R : Type 0} where
  unfoldable pub new_buffer : ℕ → Buffer R
  new_buffer seq = record { seq = seq; t1 = 0; t2 = 0; buf = [] }

  unfoldable pub new_store : StoreConfig → PgStore R
  unfolding new_buffer
  new_store config = record {
    config = config;
    rbuf = new_buffer 0;
    wbuf = new_buffer 0;
    handler = starting;
    saved = [];
    flushed = [];
  }

  -- `cond.Signal` wakes the goroutine when it waits, and is forgotten otherwise.
  abbrev pub signal : Handler R → Handler R
  signal starting = starting
  signal waiting = woken
  signal woken = woken
  signal (copying b) = copying b

  unfoldable pub flush : PgStore R → ℕ → PgStore R
  unfolding new_buffer
  flush st now =
      let full = record st.wbuf { t2 = now } in
      record st {
        rbuf = full;
        wbuf = new_buffer (st.wbuf.seq + 1);
        handler = signal st.handler;
        flushed = full ∷ st.flushed;
      }

  -- `Put` up to the append; `now` is what `time.Now` gives.
  abbrev pub append_record : PgStore R → R → ℕ → PgStore R
  append_record st rec now =
      let first = if length st.wbuf.buf == 0 then now else st.wbuf.t1 in
      record st { wbuf = record st.wbuf { t1 = first; buf = st.wbuf.buf ++ rec ∷ [] } }

  unfoldable pub put_record : PgStore R → R → ℕ → PgStore R
  unfolding flush
  put_record st rec now =
      let st' = append_record st rec now in
      if length st'.wbuf.buf == st.config.buf_size then flush st' now else st'

  -- A tick of `timer_flusher` at the time `t`.
  unfoldable pub tick : PgStore R → ℕ → PgStore R
  unfolding flush
  tick st t =
      if not (length st.wbuf.buf == 0) && ltb st.config.max_age_flush (t - st.wbuf.t1)
      then flush st t
      else st

  -- `handle` goes into `Wait`, or comes back from it and reads `rbuf`.
  abbrev wake : Handler R → Buffer R → Handler R
  wake starting b = waiting
  wake waiting b = waiting
  wake woken b = copying b
  wake (copying c) b = copying c

  unfoldable pub resume : PgStore R → PgStore R
  resume st = record st { handler = wake st.handler st.rbuf }

  -- `CopyFrom` returns, without an error or with one, and `handle` is about to wait again.
  abbrev done : PgStore R → Handler R → Bool → PgStore R
  done st (copying b) true = record st { handler = starting; saved = b ∷ st.saved }
  done st (copying b) false = record st { handler = starting }
  done st h good = st

  unfoldable pub finish : PgStore R → Bool → PgStore R
  finish st good = done st st.handler good

-- `Put`
unfoldable pub put :
    {F64 F32 Time : Type 0}
    → PgStore (Location F64 F32 Time)
    → ℕ
    → F64
    → F64
    → F32
    → F32
    → Time
    → Time
    → ℕ
    → PgStore (Location F64 F32 Time)
unfolding put_record
put st nsn lon lat alt speed gpst srvt now =
    put_record st
      (record {
        nsn = nsn;
        lon = lon;
        lat = lat;
        alt = alt;
        speed = speed;
        gpst = gpst;
        srvt = srvt;
      })
      now

-- What the goroutines do next.
pub data Event (R : Type 0) : Type 0 where
  put_event : R → ℕ → Event R
  tick_event : ℕ → Event R
  resume_event : Event R
  finish_event : Bool → Event R

module _ {R : Type 0} where
  unfoldable pub step : PgStore R → Event R → PgStore R
  unfolding put_record tick resume finish
  step st (put_event r now) = put_record st r now
  step st (tick_event t) = tick st t
  step st resume_event = resume st
  step st (finish_event good) = finish st good

  unfoldable pub run : PgStore R → List (Event R) → PgStore R
  unfolding step
  run st [] = st
  run st (e ∷ es) = run (step st e) es
