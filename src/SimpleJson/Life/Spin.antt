-- ===== src/SimpleJson/Life/Spin.antt =====
-- What becomes of the connections of a JSON device once one of them has been replaced.
use gpstracker_backend.Base.{
  ℕ, zero, suc, ◌≡◌, refl, ap, ◌∙◌, false, none, some, List, [], ◌∷◌, ◌++◌, replicate,
}
use gpstracker_backend.Gt06.Life.{Life, running, reading}
use gpstracker_backend.SimpleJson.Life.{move_json, use_next_json, advance_json, replace_json}

-- A device whose goroutine reads from the connection `c`.
abbrev pub reading_from : ℕ → List ℕ → Life
reading_from c closed = record {
  state = running;
  stopped = false;
  c = c;
  c_next = none;
  closed = closed;
  loops = reading ∷ [];
}

-- `run` comes back and `_run` chooses what to do next.
abbrev pub lap : Life → Life
lap l = advance_json 0 (advance_json 0 (advance_json 0 l))

abbrev pub laps : ℕ → Life → Life
laps zero l = l
laps (suc k) l = laps k (lap l)

-- The device that reads from `n`, which is also the connection that waits.
abbrev pub keeping : ℕ → List ℕ → Life
keeping n closed = record (reading_from n closed) { c_next = some n }

laps-keeping :
    (k n : ℕ) (closed : List ℕ) → laps k (keeping n closed) ≡ keeping n (replicate k n ++ closed)
unfolding advance_json move_json use_next_json
laps-keeping zero n closed = refl
laps-keeping (suc k) n closed = laps-keeping k n (n ∷ closed) ∙ ap (keeping n) (replicate_shift k)
  where
    replicate_shift : (k : ℕ) → replicate k n ++ (n ∷ closed) ≡ n ∷ (replicate k n ++ closed)
    replicate_shift zero = refl
    replicate_shift (suc k) = ap (λ t. n ∷ t) (replicate_shift k)

-- A connection that replaces the one a JSON device reads from is taken over, and after it has ended
-- it is taken over again and closed again, any number of times: the goroutine never pauses, unless
-- it is stopped or another connection comes.
pub replace_json-laps :
    (k n c : ℕ) (closed : List ℕ)
    → laps (suc k) (replace_json n (reading_from c closed))
      ≡ keeping n (replicate k n ++ (c ∷ c ∷ closed))
unfolding advance_json move_json use_next_json replace_json
replace_json-laps k n c closed = laps-keeping k n (c ∷ c ∷ closed)
