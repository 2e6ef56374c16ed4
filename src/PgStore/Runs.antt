-- ===== src/PgStore/Runs.antt =====
-- Runs of internal/store/impl/pgstore/pgstore.go, and its theorems at concrete inputs.
use gpstracker_backend.Base.{◌≡◌, refl, ℕ, List, [], ◌∷◌, ◌++◌, true, inl, inr, map}
use gpstracker_backend.PgStore.{
  StoreConfig, PgStore, Buffer, copying, new_store, new_buffer, flush, put_record, tick, resume,
  finish, Event, put_event, tick_event, resume_event, finish_event, step, run,
}
use gpstracker_backend.PgStore.Gather.{contents, puts, contents-run}
use gpstracker_backend.PgStore.Delivery.{Subsequence, run-Subsequence}
use gpstracker_backend.PgStore.Calm.{IsUpToDate, run-IsUpToDate, flush_unsignalled}

abbrev pair : StoreConfig
pair = record { buf_size = 2; max_age_flush = 100 }

abbrev fresh : PgStore ℕ
fresh = new_store pair

-- Three flushes, of which the handler misses the second.
abbrev busy : List (Event ℕ)
busy =
    resume_event
    ∷ put_event 1 10
    ∷ put_event 2 11
    ∷ resume_event
    ∷ put_event 3 12
    ∷ tick_event 50
    ∷ tick_event 150
    ∷ finish_event true
    ∷ resume_event
    ∷ put_event 4 160
    ∷ put_event 5 161
    ∷ resume_event
    ∷ finish_event true
    ∷ []

busy_saved : map (λ b. b.buf) (run fresh busy).saved ≡ (4 ∷ 5 ∷ []) ∷ (1 ∷ 2 ∷ []) ∷ []
unfolding run step put_record tick resume finish flush new_store new_buffer
busy_saved = refl

contents-run_example : contents (run fresh busy) ≡ contents fresh ++ puts busy
contents-run_example = contents-run fresh busy

run-Subsequence_example : Subsequence (run fresh busy).saved (run fresh busy).flushed
run-Subsequence_example = run-Subsequence pair busy

abbrev slow : List (Event ℕ)
slow =
    resume_event
    ∷ put_event 1 10
    ∷ put_event 2 11
    ∷ resume_event
    ∷ finish_event true
    ∷ put_event 3 20
    ∷ []

run-IsUpToDate_example : IsUpToDate (run fresh slow)
unfolding run step put_record resume finish flush new_store new_buffer
run-IsUpToDate_example =
    run-IsUpToDate fresh slow (tt, (inl refl, (inr refl, (tt, (refl, (inl refl, tt)))))) refl

abbrev one : Buffer ℕ
one = record { seq = 0; t1 = 5; t2 = 6; buf = 1 ∷ 2 ∷ [] }

abbrev occupied : PgStore ℕ
occupied = record {
  config = pair;
  rbuf = one;
  wbuf = record { seq = 1; t1 = 7; t2 = 0; buf = 3 ∷ [] };
  handler = copying one;
  saved = [];
  flushed = one ∷ [];
}

flush_unsignalled_example :
    (run
      (finish (flush occupied 200) true)
      (resume_event ∷ put_event 4 201 ∷ finish_event true ∷ [])).saved
    ≡ one ∷ []
unfolding run step put_record resume finish flush new_buffer
flush_unsignalled_example =
    flush_unsignalled occupied one 200 (resume_event ∷ put_event 4 201 ∷ finish_event true ∷ [])
      refl (tt, (refl, (tt, tt)))
