-- ===== src/Webstream/Pace.antt =====
-- How often the write loop of internal/webapp/tracker/webstream/webstream.go runs.
use gpstracker_backend.Base.{
  ℕ, zero, suc, ◌+◌, ◌<◌, ◌≡◌, ◌⊎◌, refl, List, [], ◌∷◌, ltb, ◌==◌, arith, inl, inr, Bool-cases,
}
use gpstracker_backend.Webstream.{Delay, update, get_delay}

-- At most one of the two counters is above zero, so that a client counts as idle or as busy.
abbrev pub IsOneSided : Delay → Type 0
IsOneSided d = (d.lower_limit_counter ≡ 0) ⊎ (d.upper_limit_counter ≡ 0)

abbrev pub updates : List ℕ → Delay → Delay
updates [] d = d
updates (n ∷ ns) d = updates ns (update n d)

update-IsOneSided : (n : ℕ) (d : Delay) → IsOneSided d → IsOneSided (update n d)
unfolding update
update-IsOneSided n d h = elim (Bool-cases (n == 0)) [
  | inl z ↦ rw z (inr refl)
  | inr k ↦ rw k (elim (Bool-cases (ltb 15 n)) [ inl b ↦ rw b (inl refl) | inr s ↦ rw s h ])
]

-- Whatever the lengths of the flushes were, at most one of the two counters is above zero.
pub updates-IsOneSided : (ns : List ℕ) (d : Delay) → IsOneSided d → IsOneSided (updates ns d)
updates-IsOneSided [] d h = h
updates-IsOneSided (n ∷ ns) d h = updates-IsOneSided ns (update n d) (update-IsOneSided n d h)

abbrev pub repeated : ℕ → ℕ → Delay → Delay
repeated zero n d = d
repeated (suc k) n d = repeated k n (update n d)

idle_counter :
    (k : ℕ) (d : Delay) → (repeated k 0 d).lower_limit_counter ≡ d.lower_limit_counter + k
unfolding update
idle_counter zero d = omega arith
idle_counter (suc k) d = omega (arith, idle_counter k (update 0 d))

busy_counter :
    (k n : ℕ) (d : Delay)
    → 15 < n
    → ((repeated (suc k) n d).upper_limit_counter ≡ d.upper_limit_counter + suc k)
      × ((repeated (suc k) n d).lower_limit_counter ≡ 0)
unfolding update
busy_counter zero n d h = ground arith
busy_counter (suc k) n d h = ground (arith, busy_counter k n (update n d) h)

-- After more than ten flushes in a row that had nothing to write, the loop sleeps five seconds;
-- after more than ten in a row of more than fifteen messages, it does not sleep.
pub get_delay-repeated :
    (k n : ℕ) (d : Delay)
    → 10 < k
    → 15 < n
    → (get_delay (repeated k 0 d) ≡ 5) × (get_delay (repeated k n d) ≡ 0)
unfolding get_delay
get_delay-repeated zero n d hk hn = absurd (omega arith)
get_delay-repeated (suc k) n d hk hn =
    (ground (arith, idle_counter (suc k) d), ground (arith, busy_counter k n d hn))
