-- ===== src/Broker.antt =====
-- internal/broker/broker.go: messages are gathered in a buffer, and each flushed buffer is written to
-- every connection, each by a goroutine of its own that waits behind one condition variable. Each
-- critical section is one step, and so is the write of a buffer. Times are numbers of nanoseconds.
pub mod Fanout
mod Runs
use gpstracker_backend.Base.{
  ℕ, zero, suc, ◌+◌, ◌-◌, ◌*◌, ◌^◌, ◌%◌, Bool, true, false, not, ◌&&◌, List, [], ◌∷◌, ◌++◌, map,
  length, take, drop, get_or, get_elem?, set, Option, none, some, ltb, ◌==◌, if◌then◌else◌,
}

pub record BrokerConfig : Type 0 where
  pub buf_size : ℕ

-- A buffer, whose messages stand in the array of this number: copies of it share them.
pub record Buffer : Type 0 where
  pub seq : ℕ
  pub t1 : ℕ
  pub t2 : ℕ
  pub array : ℕ

-- The goroutine of a connection is about to call `Wait`, waits, was woken, writes a buffer, or has
-- returned after an error.
pub data Stage : Type 0 where
  starting waiting woken : Stage
  writing : Buffer → Stage
  gone : Stage

-- `got` is what was written to the connection, a list of messages for each buffer, the newest first.
pub record BrokerConn : Type 0 where
  pub stage : Stage
  pub got : List (List (List ℕ))

pub record Broker : Type 0 where
  pub config : BrokerConfig
  pub rbuf : Buffer
  pub wbuf : Buffer
  pub arrays : List (List (List ℕ))
  pub conns : List BrokerConn

-- A new buffer and its array.
abbrev pub new_buffer : ℕ → ℕ → Buffer
new_buffer seq array = record { seq = seq; t1 = 0; t2 = 0; array = array }

unfoldable pub new_broker : BrokerConfig → Broker
new_broker config = record {
  config = config;
  rbuf = new_buffer 0 0;
  wbuf = new_buffer 0 1;
  arrays = [] ∷ [] ∷ [];
  conns = [];
}

-- `cond.Broadcast` wakes those that wait.
abbrev pub wake : Stage → Stage
wake starting = starting
wake waiting = woken
wake woken = woken
wake (writing b) = writing b
wake gone = gone

abbrev pub wake_conn : BrokerConn → BrokerConn
wake_conn c = record c { stage = wake c.stage }

unfoldable pub flush : ℕ → Broker → Broker
flush now br = record br {
  rbuf = record br.wbuf { t2 = now };
  wbuf = new_buffer ((br.wbuf.seq + 1) % 2 ^ 64) (length br.arrays);
  arrays = br.arrays ++ [] ∷ [];
  conns = map wake_conn br.conns;
}

-- The messages of a buffer.
abbrev pub messages : Buffer → Broker → List (List ℕ)
messages b br = get_or br.arrays b.array []

abbrev pub appended : List ℕ → ℕ → Broker → Broker
appended d now br =
    let held = messages br.wbuf br in
    let first = if length held == 0 then now else br.wbuf.t1 in
    record br {
      wbuf = record br.wbuf { t1 = first };
      arrays = set br.arrays br.wbuf.array (held ++ d ∷ []);
    }

-- `Broadcast`
unfoldable pub broadcast : List ℕ → ℕ → Broker → Broker
unfolding flush
broadcast d now br =
    let br' = appended d now br in
    if length (messages br'.wbuf br') == br.config.buf_size then flush now br' else br'

abbrev five_seconds : ℕ
five_seconds = 5 * 10 ^ 9

-- A tick of `timer_flusher` at the time `t`.
unfoldable pub tick : ℕ → Broker → Broker
unfolding flush
tick t br =
    if not (length (messages br.wbuf br) == 0) && ltb five_seconds (t - br.wbuf.t1)
    then flush t br
    else br

-- `Run` accepts a connection.
unfoldable pub accept : Broker → Broker
accept br = record br { conns = br.conns ++ record { stage = starting; got = [] } ∷ [] }

abbrev pub conn_at : ℕ → List BrokerConn → Option BrokerConn
conn_at i cs = get_elem? cs i

abbrev pub put_conn : ℕ → BrokerConn → Broker → Broker
put_conn i c br = record br { conns = set br.conns i c }

-- What `WriteTo` leaves of the elements of a `net.Buffers`.
abbrev pub cleared : List (List ℕ) → List (List ℕ)
cleared = map (λ d. [])

-- A buffer was written to a connection, or the write failed after `n` messages.
abbrev pub written : ℕ → Buffer → Option ℕ → BrokerConn → Broker → Broker
written i b (some n) c br =
    let sent = messages b br in
    put_conn i (record c { stage = gone })
      (record br { arrays = set br.arrays b.array (cleared (take n sent) ++ drop n sent) })
written i b none c br =
    let sent = messages b br in
    put_conn i (record c { stage = starting; got = sent ∷ c.got })
      (record br { arrays = set br.arrays b.array (cleared sent) })

abbrev pub moved : ℕ → Stage → Option ℕ → BrokerConn → Broker → Broker
moved i starting failed c br = put_conn i (record c { stage = waiting }) br
moved i waiting failed c br = br
moved i woken failed c br = put_conn i (record c { stage = writing br.rbuf }) br
moved i (writing b) failed c br = written i b failed c br
moved i gone failed c br = br

abbrev pub move_conn : ℕ → Option ℕ → Option BrokerConn → Broker → Broker
move_conn i failed none br = br
move_conn i failed (some c) br = moved i c.stage failed c br

-- The next step of the goroutine of `handle` for the connection number `i`; `failed` is how
-- many messages a failing write has sent.
unfoldable pub handle : ℕ → Option ℕ → Broker → Broker
handle i failed br = move_conn i failed (conn_at i br.conns) br

-- What happens next.
pub data Event : Type 0 where
  broadcast_event : List ℕ → ℕ → Event
  tick_event : ℕ → Event
  accept_event : Event
  handle_event : ℕ → Option ℕ → Event

unfoldable pub step : Event → Broker → Broker
unfolding broadcast tick accept handle
step (broadcast_event d now) br = broadcast d now br
step (tick_event t) br = tick t br
step accept_event br = accept br
step (handle_event i failed) br = handle i failed br

unfoldable pub run : List Event → Broker → Broker
unfolding step
run [] br = br
run (e ∷ es) br = run es (step e br)
