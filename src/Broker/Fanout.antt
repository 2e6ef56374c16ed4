-- ===== src/Broker/Fanout.antt =====
-- What two connections of a broker get of one buffer.
use gpstracker_backend.Base.{
  ℕ, zero, suc, ◌<◌, ◌≡◌, refl, none, List, [], ◌∷◌, ◌++◌, length, get_or, set, arith,
  length-append,
}
use gpstracker_backend.Broker.{
  BrokerConn, waiting, starting, Broker, messages, cleared, flush, handle, Event, handle_event,
  step, run,
}

get_or-set :
    {A : Type 0} (xs : List A) (i : ℕ) (a d : A) → i < length xs → get_or (set xs i a) i d ≡ a
get_or-set [] i a d h = absurd (omega arith)
get_or-set (x ∷ xs) zero a d h = refl
get_or-set (x ∷ xs) (suc i) a d h = get_or-set xs i a d (omega arith)

get_or_left :
    {A : Type 0} (xs ys : List A) (i : ℕ) (d : A)
    → i < length xs
    → get_or (xs ++ ys) i d ≡ get_or xs i d
get_or_left [] ys i d h = absurd (omega arith)
get_or_left (x ∷ xs) ys zero d h = refl
get_or_left (x ∷ xs) ys (suc i) d h = get_or_left xs ys i d (omega arith)

abbrev pub waits : List (List (List ℕ)) → BrokerConn
waits got = record { stage = waiting; got = got }

-- Both goroutines read the buffer and write it, the first one first.
abbrev pub both : List Event
both = handle_event 0 none ∷ handle_event 1 none ∷ handle_event 0 none ∷ handle_event 1 none ∷ []

-- Two connections wait, and a buffer is flushed. Both goroutines take it and write it; the one that
-- writes first sends its messages, and the other one as many empty ones, since the copies of the
-- buffer share the array that a write clears.
pub run-flush :
    (now : ℕ) (got got' : List (List (List ℕ))) (br : Broker)
    → br.wbuf.array < length br.arrays
    → br.conns ≡ waits got ∷ waits got' ∷ []
    → (run both (flush now br)).conns
      ≡ record { stage = starting; got = messages br.wbuf br ∷ got }
        ∷ record { stage = starting; got = cleared (messages br.wbuf br) ∷ got' }
        ∷ []
unfolding run step handle flush
run-flush now got got' br inside two = rw two (
    rw
      (
        get_or-set (br.arrays ++ [] ∷ []) br.wbuf.array
            (cleared (get_or (br.arrays ++ [] ∷ []) br.wbuf.array [])) []
            (omega (arith, length-append br.arrays ([] ∷ []))),
        get_or_left br.arrays ([] ∷ []) br.wbuf.array [] inside,
      )
      refl)
