-- ===== src/Stat.antt =====
-- internal/gps/stat/stat.go: the last ten connections and updates of a client. The mutexes make
-- each operation one step. A time is any type with Go's zero time and `IsZero`.
pub mod Ring
pub mod History
mod Runs
use gpstracker_backend.Base.{
  ℕ, ◌+◌, ◌-◌, Bool, List, [], ◌++◌, length, get_or, set, take, drop, replicate, ◌==◌,
  if◌then◌else◌,
}

pub record TimeEvent (T : Type 0) : Type 0 where
  pub list : List T
  pub idx : ℕ

pub record Stat (T : Type 0) : Type 0 where
  pub connect : TimeEvent T
  pub update : TimeEvent T

module _ {T : Type 0} (no_time : T) where
  unfoldable pub new_time_event : TimeEvent T
  new_time_event = record { list = replicate 10 no_time; idx = 9 }

  unfoldable pub new_stat : Stat T
  unfolding new_time_event
  new_stat = record { connect = new_time_event; update = new_time_event }

  unfoldable pub get_last_event : TimeEvent T → T
  get_last_event t =
      if t.idx == length t.list - 1
      then get_or t.list 0 no_time
      else get_or t.list (t.idx + 1) no_time

module _ {T : Type 0} (no_time : T) (is_zero : T → Bool) where
  unfoldable pub get_as_list : TimeEvent T → List T
  get_as_list t =
      drop (t.idx + 1) t.list
      ++ (if is_zero (get_or t.list t.idx no_time) then [] else take (t.idx + 1) t.list)

module _ {T : Type 0} where
  unfoldable pub log : TimeEvent T → T → TimeEvent T
  log l t = record {
    list = set l.list l.idx t;
    idx = if l.idx == 0 then length l.list - 1 else l.idx - 1;
  }

  unfoldable pub update_ev : Stat T → T → Stat T
  unfolding log
  update_ev s t = record s { update = log s.update t }

  unfoldable pub connect_ev : Stat T → T → Stat T
  unfolding log
  connect_ev s t = record s { connect = log s.connect t }

module _ {T : Type 0} (no_time : T) where
  unfoldable pub connect_last : Stat T → T
  connect_last s = get_last_event no_time s.connect

  unfoldable pub update_last : Stat T → T
  update_last s = get_last_event no_time s.update

module _ {T : Type 0} (no_time : T) (is_zero : T → Bool) where
  unfoldable pub connect_list : Stat T → List T
  connect_list s = get_as_list no_time is_zero s.connect

  unfoldable pub update_list : Stat T → List T
  update_list s = get_as_list no_time is_zero s.update
