-- ===== src/Broker/Runs.antt =====
-- The theorem on the connections of a broker at a concrete input.
use gpstracker_backend.Base.{◌≡◌, refl, [], ◌∷◌, arith}
use gpstracker_backend.Broker.{Broker, new_buffer, starting, messages, cleared, flush, run}
use gpstracker_backend.Broker.Fanout.{waits, both, run-flush}

abbrev crowd : Broker
crowd = record {
  config = record { buf_size = 10 };
  rbuf = new_buffer 0 0;
  wbuf = new_buffer 0 1;
  arrays = [] ∷ ((7 ∷ []) ∷ (8 ∷ []) ∷ []) ∷ [];
  conns = waits [] ∷ waits [] ∷ [];
}

run-flush_example :
    (run both (flush 5 crowd)).conns
    ≡ record { stage = starting; got = messages crowd.wbuf crowd ∷ [] }
      ∷ record { stage = starting; got = cleared (messages crowd.wbuf crowd) ∷ [] }
      ∷ []
run-flush_example = run-flush 5 [] [] crowd (omega arith) refl
