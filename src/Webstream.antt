-- ===== src/Webstream.antt =====
-- internal/webapp/tracker/webstream/webstream.go: a browser's subscriptions and the messages that
-- wait for it. The websocket is a parameter: what it reads, and whether a write fails.
pub mod Buffer
pub mod Block
pub mod Pace
pub mod Loops
pub mod Leak
pub mod Door
pub mod Admission
mod Runs
use gpstracker_backend.Base.{
  ℕ, zero, suc, ◌+◌, Bool, true, false, List, [], ◌∷◌, ◌++◌, Option, none, some, length, ltb, ◌==◌,
  if◌then◌else◌,
}
use gpstracker_backend.Base.Go.{
  Error, write_failed, Result, ok, err, panic, Slice, reslice, from, ◌>>=◌,
}
use gpstracker_backend.Base.Strconv.{parse_uint}
use gpstracker_backend.Sublist.{
  Sublist, SublistMap, get_sublist, subscribe, unsubscribe, fresh_sublist,
}

-- `locked` says that some call has returned with the mutex held, which then nobody ever gives
-- back. `too_many` is the error of a client with too many subscriptions.
pub data Reason : Type 0 where
  too_many : Reason
  failed : Error → Reason

pub record Client : Type 0 where
  pub closed : Bool
  pub locked : Bool
  pub reason : Option Reason
  pub buf : List (List ℕ)
  pub subs : List (ℕ × Sublist)

unfoldable pub new_client : Client
new_client = record { closed = false; locked = false; reason = none; buf = []; subs = [] }

unfoldable pub close_err : Reason → Client → Client
close_err e wc = record wc { closed = true; reason = some e }

-- `Push`: the client and whether it is closed, or `none` when the call never returns. On a closed
-- client it returns with the mutex held.
unfoldable pub push : List ℕ → Client → Option (Client × Bool)
push d wc =
    if wc.locked
    then none
    else if wc.closed
    then some (record wc { locked = true }, true)
    else some (record wc { buf = wc.buf ++ d ∷ [] }, false)

abbrev pub handle_of : ℕ → List (ℕ × Sublist) → Option Sublist
handle_of k [] = none
handle_of k ((j, s) ∷ rest) = if j == k then some s else handle_of k rest

abbrev pub remove : ℕ → List (ℕ × Sublist) → List (ℕ × Sublist)
remove k [] = []
remove k ((j, s) ∷ rest) = if j == k then rest else (j, s) ∷ remove k rest

abbrev pub or_fresh : ℕ → Option Sublist → Sublist
or_fresh k none = fresh_sublist k
or_fresh k (some s) = s

-- The two pushes of `Subscribe`, whose results it does not look at.
pushed : Option (Client × Bool) → List ℕ → Option Client
unfolding push
pushed none d = none
pushed (some (wc, closed)) d = second (push d wc)
  where
    second : Option (Client × Bool) → Option Client
    second none = none
    second (some (wc', closed')) = some wc'

subscribed : ℕ → Sublist → SublistMap → Option Client → Option (Client × SublistMap)
subscribed id s m none = none
subscribed id s m (some wc) =
    let wc' = record wc { subs = (id, s) ∷ wc.subs } in
    some ((if ltb 5 (length wc'.subs) then close_err too_many wc' else wc'), m)

-- What `ADDSUB` does with one id, for the client with the subscriber number `me`: `none` when it
-- never returns.
unfoldable pub add_sub : ℕ → ℕ → Client → SublistMap → Option (Client × SublistMap)
unfolding get_sublist subscribe push pushed subscribed close_err
add_sub me id wc m = known (handle_of id wc.subs)
  where
    known : Option Sublist → Option (Client × SublistMap)
    known (some s) = some ((if ltb 5 (length wc.subs) then close_err too_many wc else wc), m)
    known none =
        let (m1, got, present) = get_sublist id true m in
        let s = or_fresh id got in
        let (m2, pushes) = subscribe me s m1 in
        subscribed id s m2 (pushed (push s.location_data wc) s.event_data)

-- What `DELSUB` does with one id.
unfoldable pub del_sub : ℕ → ℕ → Client → SublistMap → Client × SublistMap
unfolding unsubscribe
del_sub me id wc m = known (handle_of id wc.subs)
  where
    known : Option Sublist → Client × SublistMap
    known none = (wc, m)
    known (some s) = (record wc { subs = remove id wc.subs }, unsubscribe me s m)

-- `strings.Split(s, ",")`
abbrev pub split_at : List ℕ → List ℕ × List (List ℕ)
split_at [] = ([], [])
split_at (c ∷ cs) =
    let (word, words) = split_at cs in if c == b',' then ([], word ∷ words) else (c ∷ word, words)

abbrev pub split : List ℕ → List (List ℕ)
split s = let (word, words) = split_at s in word ∷ words

-- The ids of a command; what is not a number is passed over.
abbrev with_id : Result ℕ → List ℕ → List ℕ
with_id (ok id) ids = id ∷ ids
with_id (err e) ids = ids
with_id panic ids = ids

abbrev pub ids_of : List (List ℕ) → List ℕ
ids_of [] = []
ids_of (w ∷ ws) = with_id (parse_uint 10 w) (ids_of ws)

abbrev pub add_subs : ℕ → List ℕ → Option (Client × SublistMap) → Option (Client × SublistMap)
add_subs me [] st = st
add_subs me (id ∷ ids) none = none
add_subs me (id ∷ ids) (some (wc, m)) = add_subs me ids (add_sub me id wc m)

abbrev pub del_subs : ℕ → List ℕ → Client × SublistMap → Client × SublistMap
del_subs me [] st = st
del_subs me (id ∷ ids) (wc, m) = del_subs me ids (del_sub me id wc m)

-- ADDSUB and DELSUB
abbrev add_text : List ℕ
add_text = b'A' ∷ b'D' ∷ b'D' ∷ b'S' ∷ b'U' ∷ b'B' ∷ []

abbrev del_text : List ℕ
del_text = b'D' ∷ b'E' ∷ b'L' ∷ b'S' ∷ b'U' ∷ b'B' ∷ []

abbrev same_text : List ℕ → List ℕ → Bool
same_text [] [] = true
same_text [] (b ∷ bs) = false
same_text (a ∷ xs) [] = false
same_text (a ∷ xs) (b ∷ bs) = if a == b then same_text xs bs else false

-- What `readloop` does with a message: a panic, no return, or the new state.
unfoldable pub handle_message :
    ℕ → Slice → Client × SublistMap → Result (Option (Client × SublistMap))
handle_message me msg (wc, m) = reslice msg 0 6 >>= λ head.
    if same_text head.vis add_text
    then (from msg 7 >>= λ names. ok (add_subs me (ids_of (split names.vis)) (some (wc, m))))
    else if same_text head.vis del_text
    then (from msg 7 >>= λ names. ok (some (del_subs me (ids_of (split names.vis)) (wc, m))))
    else ok (some (wc, m))

-- One flush of `writeLoop`, which has the mutex: what it writes, as far as a write fails at `fault`, and whether the
-- loop goes on. On a failed write the buffer stays.
abbrev pub written : List (List ℕ) → Option ℕ → List (List ℕ) × Bool
written [] fault = ([], true)
written (d ∷ ds) none = let (out, good) = written ds none in (d ∷ out, good)
written (d ∷ ds) (some zero) = ([], false)
written (d ∷ ds) (some (suc k)) = let (out, good) = written ds (some k) in (d ∷ out, good)

unfoldable pub flush : Option ℕ → Client → Client × List (List ℕ) × Bool
unfolding close_err
flush fault wc =
    let (out, good) = written wc.buf fault in
    ((if good then record wc { buf = [] } else close_err (failed write_failed) wc), out, good)

pub record Delay : Type 0 where
  pub lower_limit_counter : ℕ
  pub upper_limit_counter : ℕ

unfoldable pub update : ℕ → Delay → Delay
update n d =
    if n == 0
    then record { lower_limit_counter = d.lower_limit_counter + 1; upper_limit_counter = 0 }
    else if ltb 15 n
    then record { lower_limit_counter = 0; upper_limit_counter = d.upper_limit_counter + 1 }
    else d

unfoldable pub get_delay : Delay → ℕ
get_delay d =
    if ltb 10 d.lower_limit_counter then 5 else if ltb 10 d.upper_limit_counter then 0 else 1
