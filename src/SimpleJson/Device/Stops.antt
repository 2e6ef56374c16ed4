-- ===== src/SimpleJson/Device/Stops.antt =====
-- The loop of a JSON device ends with its stream.
use gpstracker_backend.Base.{
  ℕ, zero, suc, ◌+◌, ◌≤◌, ◌<◌, ◌≡◌, refl, Bool, true, false, List, [], ◌∷◌, length, Option, none,
  some, ◌==◌, if◌then◌else◌, arith, ◌⊎◌, inl, inr,
}
use gpstracker_backend.Base.Go.{Result, ok, err, panic, Input, byte, late, broken}
use gpstracker_backend.Base.Values.{Values}
use gpstracker_backend.SimpleJson.Frame.{read_message}
use gpstracker_backend.SimpleJson.Frame.Progress.{read_message_four}
use gpstracker_backend.SimpleJson.Device.{
  JsonNext, read_on, left, died, SimpleJson, Json, LocationMessage, StatusMessage, Sat, shut,
  located, status_arrived, sat_arrived, handle, after_read, iterate, rounds, run, location_update,
  status_kind, sat_update, gps_error, gps_init,
}

-- The loop is over.
abbrev pub IsLeft : JsonNext → Type 0
IsLeft read_on = ⊥
IsLeft left = Unit {0}
IsLeft died = Unit {0}

module _ (V : Values) where
  open V use {Time}

  shut_le : (n : ℕ) (s : List Input) → length (shut V n s) ≤ length s + 1
  shut_le zero s = omega arith
  shut_le (suc n) [] = omega arith
  shut_le (suc n) (late ∷ s) = omega arith
  shut_le (suc n) (broken ∷ s) = omega arith
  shut_le (suc n) (byte b ∷ s) = omega (arith, shut_le n s)

  located_le :
      (n : ℕ) (s : List Input) (t : Time) (o : Option (LocationMessage V)) (j : SimpleJson V)
      → length (located V n s t o j).0 ≤ length s + 1
  unfolding located
  located_le n s t none j = shut_le n s
  located_le n s t (some l) j = omega arith

  status_arrived_le :
      (n : ℕ) (s : List Input) (t : Time) (o : Option (StatusMessage V)) (j : SimpleJson V)
      → length (status_arrived V n s t o j).0 ≤ length s + 1
  unfolding status_arrived
  status_arrived_le n s t none j = shut_le n s
  status_arrived_le n s t (some l) j = omega arith

  sat_arrived_le :
      (n : ℕ) (s : List Input) (t : Time) (o : Option (List Sat)) (j : SimpleJson V)
      → length (sat_arrived V n s t o j).0 ≤ length s + 1
  unfolding sat_arrived
  sat_arrived_le n s t none j = shut_le n s
  sat_arrived_le n s t (some l) j = omega arith

  -- Both branches of a test keep a bound.
  branch_le :
      (b : Bool) (k : ℕ) (x y : List Input × SimpleJson V)
      → length x.0 ≤ k
      → length y.0 ≤ k
      → length (if b then x else y).0 ≤ k
  branch_le true k x y hx hy = hx
  branch_le false k x y hx hy = hy

module _ (V : Values) (J : Json V) where
  open V use {Time}

  handle_le :
      (n : ℕ) (s : List Input) (t : Time) (j : SimpleJson V)
      → length (handle V J n s t j).0 ≤ length s + 1
  unfolding handle
  handle_le n s t j =
      let kind = j.msg.protocol in
      let k = length s + 1 in
      branch_le V (kind == location_update) k _ _ (located_le V n s t _ j) (
        branch_le V (kind == status_kind) k _ _ (status_arrived_le V n s t _ j) (
          branch_le V (kind == sat_update) k _ _ (sat_arrived_le V n s t none j) (
            branch_le V (kind == gps_error) k _ _ (omega arith)
              (branch_le V (kind == gps_init) k _ _ (omega arith) (omega arith)))))

  after_read_less :
      (n k : ℕ) (t : Time) (s : List Input) (r : Result (Unit {0})) (j : SimpleJson V)
      → (r ≡ ok tt → length s + 4 ≤ k)
      → (length (after_read V J n t s r j).0 < k) ⊎ IsLeft (after_read V J n t s r j).2
  after_read_less n k t s (ok u) j h = inl (omega (arith, handle_le n s t j, h refl))
  after_read_less n k t s (err e) j h = inr tt
  after_read_less n k t s panic j h = inr tt

  rounds-IsLeft :
      (ts : List (ℕ × Time)) (s : List Input) (j : SimpleJson V) (next : JsonNext)
      → (length s < length ts) ⊎ IsLeft next
      → IsLeft (rounds V J ts (s, j, next)).2
  unfolding rounds iterate
  rounds-IsLeft [] s j next (inl h) = absurd (omega arith)
  rounds-IsLeft [] s j next (inr h) = h
  rounds-IsLeft (t ∷ ts) s j left h = rounds-IsLeft ts s j left (inr tt)
  rounds-IsLeft (t ∷ ts) s j died h = rounds-IsLeft ts s j died (inr tt)
  rounds-IsLeft (t ∷ ts) s j read_on (inr h) = absurd h
  rounds-IsLeft ((n, t) ∷ ts) s j read_on (inl h) =
      let x = iterate V J n t s j in
      rounds-IsLeft ts x.0 x.1 x.2
        (elim (after_read_less n (length s) t (read_message s j.msg).0 (read_message s j.msg).2
          (record j { msg = (read_message s j.msg).1 }) (read_message_four s j.msg)) [
            | inl less ↦ inl (omega arith)
            | inr over ↦ inr over
          ])

  -- Whatever a JSON device sends, and however much of it is buffered when its connection is closed,
  -- `run` is over after at most one round more than the stream has inputs.
  pub run-IsLeft :
      (ts : List (ℕ × Time)) (s : List Input) (j : SimpleJson V)
      → length s < length ts
      → IsLeft (run V J ts s j).2
  unfolding run
  run-IsLeft ts s j h = rounds-IsLeft ts s j read_on (inl h)
