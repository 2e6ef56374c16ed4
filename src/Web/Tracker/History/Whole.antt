-- ===== src/Web/Tracker/History/Whole.antt =====
-- What a client is written, whatever the size of the chunks.
use gpstracker_backend.Base.{
  ℕ, suc, ◌+◌, ◌%◌, ◌^◌, ◌≡◌, refl, sym, ap, ◌∙◌, Bool, true, false, not, ◌&&◌, List, [], ◌∷◌, ◌++◌,
  map, Option, none, some, length, ◌==◌, ==_iff, arith, if◌then◌else◌, inl, inr, Bool-cases,
  append_assoc,
}
use mathlib.Core.Path.{subst}
use gpstracker_backend.Base.Values.{Values}
use gpstracker_backend.Server.{lookup}
use gpstracker_backend.Server.Devices.{lookup-assign, lookup-assign_other}
use gpstracker_backend.Sublist.{little}
use gpstracker_backend.Web.Tracker.History.{
  Client, write, write_to, counted, increment, LocationRow, row_bytes, Progress, gathered, flushed,
  chunked, next_turn, scan_rows, trailer, get_tracker_location_history,
}

append_nil : {A : Type 0} (xs : List A) → xs ++ [] ≡ xs
append_nil [] = refl
append_nil (x ∷ xs) = ap (λ t. x ∷ t) (append_nil xs)

-- A client whose writes do not fail, with more written.
abbrev pub reads : List ℕ → List ℕ → Client
reads before d = record { written = before ++ d; faults = [] }

-- A client whose writes do not fail gets all of the buffer.
write_to_calm :
    (b : List ℕ) (w : Client)
    → w.faults ≡ []
    → write_to b w ≡ (record { written = w.written ++ b; faults = [] }, false)
unfolding write_to write
write_to_calm [] w calm =
    λ i. (record { written = sym (append_nil w.written) i; faults = calm i }, false)
write_to_calm (x ∷ b) w calm = rw calm refl

abbrev pub count_or_zero : Option ℕ → ℕ
count_or_zero none = 0
count_or_zero (some n) = n

none_before : (n : ℕ) → 0 + n ≡ n
none_before n = omega arith

increment_same :
    (k i : ℕ) (counts : List (ℕ × ℕ))
    → k ≡ i
    → count_or_zero (lookup i (increment k counts)) ≡ count_or_zero (lookup i counts) + 1
increment_same k i counts e =
    ap (λ j. count_or_zero (lookup j (increment k counts))) (sym e)
    ∙ ap count_or_zero (lookup-assign k (counted (lookup k counts)) counts)
    ∙ by_old (lookup k counts)
    ∙ ap (λ j. count_or_zero (lookup j counts) + 1) e
  where
    by_old : (o : Option ℕ) → counted o ≡ count_or_zero o + 1
    by_old none = refl
    by_old (some n) = refl

module _ (V : Values) where
  abbrev pub all_bytes : List (LocationRow V) → List ℕ
  all_bytes [] = []
  all_bytes (r ∷ rs) = row_bytes V r ++ all_bytes rs

  -- How many rows each device has.
  abbrev pub all_counts : List (LocationRow V) → List (ℕ × ℕ) → List (ℕ × ℕ)
  all_counts [] counts = counts
  all_counts (r ∷ rs) counts = all_counts rs (increment r.nsn counts)

  -- How many of the rows are those of this device.
  abbrev pub rows_from : ℕ → List (LocationRow V) → ℕ
  rows_from i [] = 0
  rows_from i (r ∷ rs) = let rest = rows_from i rs in if r.nsn == i then suc rest else rest

  counts_rows :
      (i : ℕ) (rs : List (LocationRow V)) (counts : List (ℕ × ℕ))
      → count_or_zero (lookup i (all_counts rs counts))
        ≡ count_or_zero (lookup i counts) + rows_from i rs
  counts_rows i [] counts = omega arith
  counts_rows i (r ∷ rs) counts =
      counts_rows i rs (increment r.nsn counts) ∙ elim (Bool-cases (r.nsn == i)) [
        | inl y ↦ rw y (omega (arith, increment_same r.nsn i counts ((==_iff r.nsn i).0 y)))
        | inr n ↦ rw n (
            ap (λ o. count_or_zero o + rows_from i rs)
              (lookup-assign_other i r.nsn (counted (lookup r.nsn counts)) counts n))
      ]

  -- What was gathered is written or still in the buffer.
  abbrev Holds : List ℕ → List (ℕ × ℕ) → Progress V × Bool → Type 0
  Holds d counts (p, failed) =
      (p.client.written ++ p.buf ≡ d)
      × (p.client.faults ≡ [])
      × (p.group_cnt ≡ counts)
      × (failed ≡ false)

  chunked-Holds :
      (chunk : ℕ) (p : Progress V)
      → p.client.faults ≡ []
      → Holds (p.client.written ++ p.buf) p.group_cnt (chunked V chunk p)
  unfolding chunked
  chunked-Holds chunk p calm = elim (Bool-cases (not (chunk == 0) && (p.count == chunk))) [
    | inr n ↦ rw n (refl, calm, refl, refl)
    | inl y ↦ rw y (written p.buf)
  ]
    where
      written :
          (b : List ℕ)
          → Holds (p.client.written ++ b) p.group_cnt (flushed V p (write_to b p.client))
      written b =
          rw (write_to_calm b p.client calm) (append_nil (p.client.written ++ b), refl, refl, refl)

  turn-Holds :
      (chunk : ℕ) (d : List ℕ) (counts : List (ℕ × ℕ)) (rs : List (LocationRow V))
      (x : Progress V × Bool)
      → ((q : Progress V)
          → q.client.faults ≡ []
          → Holds
              ((q.client.written ++ q.buf) ++ all_bytes rs)
              (all_counts rs q.group_cnt)
              (scan_rows V chunk (map some rs) q))
      → Holds d counts x
      → Holds
          (d ++ all_bytes rs)
          (all_counts rs counts)
          (next_turn V x (λ q. scan_rows V chunk (map some rs) q))
  turn-Holds chunk d counts rs (q, true) later (same, calm, cnt, fine) = absurd (ne fine)
    where
      ne : true ≡ false → ⊥
      ne e = cc
  turn-Holds chunk d counts rs (q, false) later (same, calm, cnt, fine) =
      rw (sym same, sym cnt) (later q calm)

  scan_rows-Holds :
      (chunk : ℕ) (rs : List (LocationRow V)) (p : Progress V)
      → p.client.faults ≡ []
      → Holds
          ((p.client.written ++ p.buf) ++ all_bytes rs)
          (all_counts rs p.group_cnt)
          (scan_rows V chunk (map some rs) p)
  unfolding scan_rows
  scan_rows-Holds chunk [] p calm = (sym (append_nil (p.client.written ++ p.buf)), calm, refl, refl)
  scan_rows-Holds chunk (r ∷ rs) p calm =
      subst
        (λ d. Holds d (all_counts (r ∷ rs) p.group_cnt) (scan_rows V chunk (map some (r ∷ rs)) p))
        regroup
        (turn-Holds chunk (p.client.written ++ (p.buf ++ row_bytes V r))
          (increment r.nsn p.group_cnt) rs (chunked V chunk (gathered V r p))
          (scan_rows-Holds chunk rs) (chunked-Holds chunk (gathered V r p) calm))
    where
      regroup :
          (p.client.written ++ (p.buf ++ row_bytes V r)) ++ all_bytes rs
          ≡ (p.client.written ++ p.buf) ++ (row_bytes V r ++ all_bytes rs)
      regroup =
          ap (λ t. t ++ all_bytes rs) (sym (append_assoc p.client.written p.buf (row_bytes V r)))
          ∙ append_assoc (p.client.written ++ p.buf) (row_bytes V r) (all_bytes rs)

module _ (V : Values) (marshal : List (ℕ × ℕ) → List ℕ) where
  trailer-Holds :
      (d : List ℕ) (counts : List (ℕ × ℕ)) (x : Progress V × Bool)
      → Holds V d counts x
      → trailer V marshal x ≡ (
        record {
          written = (d ++ marshal counts) ++ little 4 (length (marshal counts) % 2 ^ 32);
          faults = [];
        },
        false,
      )
  unfolding write
  trailer-Holds d counts (p, true) (same, calm, cnt, fine) = absurd (ne fine)
    where
      ne : true ≡ false → ⊥
      ne e = cc
  trailer-Holds d counts (p, false) (same, calm, cnt, fine) =
      rw (write_to_calm p.buf p.client calm, same, cnt) refl

  -- When every row can be scanned and no write fails, the client is written the rows in their
  -- order, behind them the counts of the rows of each device and behind those the
  -- length of the counts, whatever the size of the chunks; and the count of any device is the number
  -- of its rows, where a missing count is zero.
  pub get_tracker_location_history_whole :
      (chunk i : ℕ) (rs : List (LocationRow V)) (w : Client)
      → w.faults ≡ []
      → let counts = marshal (all_counts V rs []) in
        (get_tracker_location_history V marshal chunk false (map some rs) w ≡ (
          record {
            written =
                ((w.written ++ all_bytes V rs) ++ counts) ++ little 4 (length counts % 2 ^ 32);
            faults = [];
          },
          false,
        ))
        × (count_or_zero (lookup i (all_counts V rs [])) ≡ rows_from V i rs)
  unfolding get_tracker_location_history
  get_tracker_location_history_whole chunk i rs w calm =
      let start : Progress V = record { buf = []; group_cnt = []; count = 0; client = w } in
      (
        trailer-Holds (w.written ++ all_bytes V rs) (all_counts V rs [])
            (scan_rows V chunk (map some rs) start)
            (subst
              (λ d.
                Holds V (d ++ all_bytes V rs) (all_counts V rs [])
                  (scan_rows V chunk (map some rs) start))
              (append_nil w.written) (scan_rows-Holds V chunk rs start calm)),
        counts_rows V i rs [] ∙ none_before (rows_from V i rs),
      )
