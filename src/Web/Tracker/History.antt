-- ===== src/Web/Tracker/History.antt =====
-- GetTrackerLocationHistory of internal/webapp/tracker/tracker.go, which writes a table's rows to a
-- client in chunks. `json.Marshal` of the counts is a parameter.
pub mod Whole
use gpstracker_backend.Base.{
  ℕ, ◌+◌, ◌%◌, ◌^◌, Bool, true, false, not, ◌&&◌, List, [], ◌∷◌, ◌++◌, Option, none, some, length,
  ltb, ◌==◌, if◌then◌else◌,
}
use gpstracker_backend.Base.Go.{write_failed, query_failed, Result, ok, err}
use gpstracker_backend.Base.Values.{Values}
use gpstracker_backend.Server.{lookup, assign}
use gpstracker_backend.Sublist.{little}
use gpstracker_backend.Web.Tables.{next_fault}

-- The client: what it was written, and which of the next writes fail.
pub record Client : Type 0 where
  pub written : List ℕ
  pub faults : List Bool

abbrev wrote : List ℕ → Bool × List Bool → Client → Client × Bool
wrote d (true, fs) w = (record w { faults = fs }, true)
wrote d (false, fs) w = (record { written = w.written ++ d; faults = fs }, false)

-- `w.Write`, and whether it failed.
unfoldable pub write : List ℕ → Client → Client × Bool
write d w = wrote d (next_fault w.faults) w

-- `buf.WriteTo(w)`: an empty buffer is not written.
unfoldable pub write_to : List ℕ → Client → Client × Bool
unfolding write
write_to [] w = (w, false)
write_to (b ∷ d) w = write (b ∷ d) w

-- `group_cnt[nsn]++`
abbrev pub counted : Option ℕ → ℕ
counted none = 1
counted (some n) = n + 1

abbrev pub increment : ℕ → List (ℕ × ℕ) → List (ℕ × ℕ)
increment nsn counts = assign nsn (counted (lookup nsn counts)) counts

-- `req.Limit == 0 || len(req.NSN) > 1`: then the query has no limit.
unfoldable pub unlimited : ℕ → List ℕ → Bool
unlimited limit nsns = if limit == 0 then true else ltb 1 (length nsns)

module _ (V : Values) where
  open V use {F64, F32, Time, bits64, bits32, unix_milli}

  -- The columns of a row, which for once are in the order nsn, latitude, longitude.
  pub record LocationRow : Type 0 where
    pub nsn : ℕ
    pub lat : F64
    pub lon : F64
    pub alt : F32
    pub speed : F32
    pub gps_time : Time
    pub server_time : Time

  -- The seven calls of `binary.Write`.
  unfoldable pub row_bytes : LocationRow → List ℕ
  row_bytes r =
      little 8 r.nsn
      ++ (little 8 (bits64 r.lat)
          ++ (little 8 (bits64 r.lon)
              ++ (little 4 (bits32 r.alt)
                  ++ (little 4 (bits32 r.speed)
                      ++ (little 8 (unix_milli r.gps_time)
                          ++ little 8 (unix_milli r.server_time))))))

  -- `buf`, `group_cnt`, `count` and the client.
  pub record Progress : Type 0 where
    pub buf : List ℕ
    pub group_cnt : List (ℕ × ℕ)
    pub count : ℕ
    pub client : Client

  -- A row is in the buffer.
  abbrev pub gathered : LocationRow → Progress → Progress
  gathered r p = record p {
    buf = p.buf ++ row_bytes r;
    group_cnt = increment r.nsn p.group_cnt;
    count = p.count + 1;
  }

  abbrev pub flushed : Progress → Client × Bool → Progress × Bool
  flushed p (w, failed) = (record p { buf = []; count = 0; client = w }, failed)

  -- The end of a turn of the loop: a full chunk is written.
  unfoldable pub chunked : ℕ → Progress → Progress × Bool
  unfolding write_to
  chunked chunk p =
      if not (chunk == 0) && (p.count == chunk)
      then flushed p (write_to p.buf p.client)
      else (p, false)

  abbrev pub next_turn : Progress × Bool → (Progress → Progress × Bool) → Progress × Bool
  next_turn (p, true) k = (p, true)
  next_turn (p, false) k = k p

  -- The loop; the second part says that it returned an error.
  unfoldable pub scan_rows : ℕ → List (Option LocationRow) → Progress → Progress × Bool
  unfolding chunked row_bytes
  scan_rows chunk [] p = (p, false)
  scan_rows chunk (none ∷ rs) p = (p, true)
  scan_rows chunk (some r ∷ rs) p =
      next_turn (chunked chunk (gathered r p)) (λ q. scan_rows chunk rs q)

module _ (V : Values) (marshal : List (ℕ × ℕ) → List ℕ) where
  abbrev and_then : Client × Bool → (Client → Client × Bool) → Client × Bool
  and_then (w, true) k = (w, true)
  and_then (w, false) k = k w

  -- From the end of the loop on: the last chunk, the counts and their length.
  abbrev pub trailer : Progress V × Bool → Client × Bool
  trailer (p, true) = (p.client, true)
  trailer (p, false) =
      let b = marshal p.group_cnt in
      and_then (write_to p.buf p.client)
        (λ w. and_then (write b w) (λ w'. write (little 4 (length b % 2 ^ 32)) w'))

  -- `GetTrackerLocationHistory`, at the rows that the query gives; `fault` says that it failed.
  unfoldable pub get_tracker_location_history :
      ℕ → Bool → List (Option (LocationRow V)) → Client → Client × Bool
  unfolding scan_rows write_to
  get_tracker_location_history chunk true rows w = (w, true)
  get_tracker_location_history chunk false rows w =
      trailer (scan_rows V chunk rows (record { buf = []; group_cnt = []; count = 0; client = w }))
