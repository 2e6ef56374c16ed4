-- ===== src/Web/Tracker/Paging.antt =====
-- GetTrackerEvent and GetGT06CmdHistory of internal/webapp/tracker/tracker.go, which page through a
-- table from the newest row on. Their code is the same on two tables.
pub mod Order
pub mod Complete
use gpstracker_backend.Base.{
  ℕ, Bool, true, false, not, ◌&&◌, ◌||◌, List, [], ◌∷◌, Option, none, some, take, ltb, ◌==◌,
  if◌then◌else◌,
}
use gpstracker_backend.Base.Go.{query_failed, Result, ok, err}
use gpstracker_backend.Base.Int.{ℤ, pos, negsuc}
use gpstracker_backend.Base.Texts.{Text}
use gpstracker_backend.Web.Tracker.{scan_all}

-- `TrackerIdTimeRequestModel`; a missing timestamp is the zero time.
pub record PageRequest : Type 0 where
  pub tracker_id : ℕ
  pub timestamp : Option ℕ
  pub pointer : ℕ
  pub limit : ℤ

pub record TrackerEventModel : Type 0 where
  pub id : ℕ
  pub tracker_id : ℕ
  pub event_type : Text
  pub message : Text
  pub message_json : Text
  pub event_timestamp : ℕ

pub record Gt06CmdResponseModel : Type 0 where
  pub id : ℕ
  pub tracker_id : ℕ
  pub server_flag : ℕ
  pub command : Text
  pub command_time : ℕ
  pub response : Text
  pub response_time : ℕ

-- The columns that the two statements compare.
pub record Columns (A : Type 0) : Type 0 where
  pub id_of : A → ℕ
  pub tracker_of : A → ℕ
  pub time_of : A → ℕ

-- `if req.Limit == 0 { req.Limit = 20 }`
abbrev pub limit_or_default : ℤ → ℤ
limit_or_default (pos n) = if n == 0 then pos 20 else pos n
limit_or_default (negsuc n) = negsuc n

abbrev before_or_now : ℕ → Option ℕ → ℕ
before_or_now now none = now
before_or_now now (some t) = t

module _ {A : Type 0} where
  abbrev pub where_rows : (A → Bool) → List A → List A
  where_rows p [] = []
  where_rows p (x ∷ xs) = let rest = where_rows p xs in if p x then x ∷ rest else rest

  -- `ORDER BY key DESC`
  abbrev pub insert_desc : (A → ℕ) → A → List A → List A
  insert_desc key x [] = x ∷ []
  insert_desc key x (y ∷ ys) =
      let rest = insert_desc key x ys in if ltb (key x) (key y) then y ∷ rest else x ∷ y ∷ ys

  abbrev pub order_desc : (A → ℕ) → List A → List A
  order_desc key [] = []
  order_desc key (x ∷ xs) = insert_desc key x (order_desc key xs)

  -- `LIMIT`, which must not be negative.
  abbrev pub limited : ℤ → List A → Result (List A)
  limited (pos n) xs = ok (take n xs)
  limited (negsuc n) xs = err query_failed

  abbrev pub wanted : Columns A → PageRequest → A → Bool
  wanted c req x = (c.tracker_of x == req.tracker_id) || (req.tracker_id == 0)

  -- Both functions, at a table; `fault` says whether the query fails.
  unfoldable pub page : Columns A → ℕ → PageRequest → Bool → List A → Result (List A)
  page c now req true table = err query_failed
  page c now req false table =
      let limit = limit_or_default req.limit in
      if req.pointer == 0
      then limited limit (
          order_desc c.time_of (
            where_rows (λ x. wanted c req x && ltb (c.time_of x) (before_or_now now req.timestamp))
              table))
      else limited limit (
          order_desc c.id_of
            (where_rows (λ x. wanted c req x && ltb (c.id_of x) req.pointer) table))

abbrev pub event_columns : Columns TrackerEventModel
event_columns = record {
  id_of = λ e. e.id;
  tracker_of = λ e. e.tracker_id;
  time_of = λ e. e.event_timestamp;
}

abbrev command_columns : Columns Gt06CmdResponseModel
command_columns = record {
  id_of = λ e. e.id;
  tracker_of = λ e. e.tracker_id;
  time_of = λ e. e.response_time;
}

-- `GetTrackerEvent`
unfoldable pub get_tracker_event :
    ℕ → PageRequest → Bool → List TrackerEventModel → Result (List TrackerEventModel)
unfolding page
get_tracker_event now req fault table = page event_columns now req fault table

-- `GetGT06CmdHistory`
unfoldable pub get_gt06_cmd_history :
    ℕ → PageRequest → Bool → List Gt06CmdResponseModel → Result (List Gt06CmdResponseModel)
unfolding page
get_gt06_cmd_history now req fault table = page command_columns now req fault table
