-- ===== src/Sublist.antt =====
-- internal/gpsv2/sublist/sublist.go: the subscribers of each tracker, and the messages that they
-- are pushed. A subscriber is a number; whether a push finds it closed is a parameter.
pub mod Encode
pub mod Members
pub mod Handles
mod Runs
use gpstracker_backend.Base.{
  ℕ, zero, suc, ◌+◌, ◌*◌, ◌/◌, ◌%◌, ◌^◌, Bool, true, false, not, List, [], ◌∷◌, ◌++◌, map, Option,
  none, some, ◌==◌, if◌then◌else◌,
}
use gpstracker_backend.Base.Values.{Values}

-- A map's value holds its subscribers behind a pointer, so that every copy of it shares them; a
-- key stands once. The fields `data` and `event_data` of the values in the map never change, so
-- they are not kept here.
pub record SublistMap : Type 0 where
  pub list : List (ℕ × List ℕ)

-- A `Sublist` as `GetSublist` returns it: a pointer to a copy, with its own `data` (here
-- `location_data`) and `event_data`.
pub record Sublist : Type 0 where
  pub key : ℕ
  pub location_data : List ℕ
  pub event_data : List ℕ

abbrev pub lookup : ℕ → List (ℕ × List ℕ) → Option (List ℕ)
lookup k [] = none
lookup k ((j, subs) ∷ rest) = if j == k then some subs else lookup k rest

abbrev pub subs_or : Option (List ℕ) → List ℕ
subs_or none = []
subs_or (some subs) = subs

abbrev pub replace : ℕ → List ℕ → List (ℕ × List ℕ) → List (ℕ × List ℕ)
replace k subs [] = []
replace k subs ((j, old) ∷ rest) =
    if j == k then (j, subs) ∷ rest else (j, old) ∷ replace k subs rest

-- The subscribers that a handle sees, and the map after they became `subs`.
abbrev pub subs_of : Sublist → SublistMap → List ℕ
subs_of s m = subs_or (lookup s.key m.list)

abbrev pub with_subs : Sublist → List ℕ → SublistMap → SublistMap
with_subs s subs m = record { list = replace s.key subs m.list }

unfoldable pub new_sublist_map : SublistMap
new_sublist_map = record { list = [] }

abbrev pub fresh_sublist : ℕ → Sublist
fresh_sublist key = record { key = key; location_data = 0 ∷ []; event_data = 1 ∷ [] }

abbrev found : Option (List ℕ) → ℕ → Bool → SublistMap → SublistMap × Option Sublist × Bool
found (some subs) key create m = (m, some (fresh_sublist key), true)
found none key false m = (m, none, false)
found none key true m = (record { list = (key, []) ∷ m.list }, some (fresh_sublist key), true)

unfoldable pub get_sublist : ℕ → Bool → SublistMap → SublistMap × Option Sublist × Bool
get_sublist key create m = found (lookup key m.list) key create m

abbrev pub member : ℕ → List ℕ → Bool
member x [] = false
member x (y ∷ ys) = if x == y then true else member x ys

abbrev pub delete : ℕ → List ℕ → List ℕ
delete x [] = []
delete x (y ∷ ys) = if x == y then ys else y ∷ delete x ys

-- A push: the subscriber, the sender and the message.
abbrev pub Push : Type 0
Push = ℕ × ℕ × List ℕ

unfoldable pub subscribe : ℕ → Sublist → SublistMap → SublistMap × List Push
subscribe sub s m =
    let subs = subs_of s m in
    (
      with_subs s (if member sub subs then subs else sub ∷ subs) m,
      (sub, s.key, s.location_data) ∷ (sub, s.key, s.event_data) ∷ [],
    )

unfoldable pub unsubscribe : ℕ → Sublist → SublistMap → SublistMap
unsubscribe sub s m = with_subs s (delete sub (subs_of s m)) m

-- The loops over the subscribers: each is pushed the message, and the closed ones are deleted.
abbrev pub still_open : (ℕ → Bool) → List ℕ → List ℕ
still_open closed [] = []
still_open closed (x ∷ xs) = if closed x then still_open closed xs else x ∷ still_open closed xs

unfoldable pub send : ℕ → List ℕ → (ℕ → Bool) → Sublist → SublistMap → SublistMap × List Push
send sender d closed s m =
    let subs = subs_of s m in
    (with_subs s (still_open closed subs) m, map (λ sub. (sub, sender, d)) subs)

-- `binary.LittleEndian.PutUint16`, `PutUint32` and `PutUint64`: the bytes, the lowest first.
abbrev pub little : ℕ → ℕ → List ℕ
little zero v = []
little (suc n) v = v % 256 ∷ little n (v / 256)

module _ (V : Values) where
  open V use {F64, F32, Time, bits64, bits32, unix_milli}

  unfoldable pub encode_location : ℕ → F64 → F64 → F32 → Time → Time → List ℕ
  encode_location tracker_id lat lon speed gps_time server_time =
      0x00 ∷ little 2 (tracker_id % 2 ^ 16)
      ++ (little 8 (bits64 lat)
          ++ (little 8 (bits64 lon)
              ++ (little 4 (bits32 speed)
                  ++ (little 8 (unix_milli gps_time) ++ little 8 (unix_milli server_time)))))

  unfoldable pub send_location :
      F64
      → F64
      → F32
      → Time
      → Time
      → (ℕ → Bool)
      → Sublist
      → SublistMap
      → Sublist × SublistMap × List Push
  unfolding encode_location send
  send_location lat lon speed gps_time server_time closed s m =
      let s' = record s {
        location_data = encode_location s.key lat lon speed gps_time server_time;
      } in
      let (m', pushes) = send s.key s'.location_data closed s' m in (s', m', pushes)

-- The texts {"tid": and ,"topic":" and ,"message": and ,"time":
abbrev tid_text : List ℕ
tid_text = 123 ∷ b'"' ∷ b't' ∷ b'i' ∷ b'd' ∷ b'"' ∷ b':' ∷ []

abbrev topic_text : List ℕ
topic_text = b',' ∷ b'"' ∷ b't' ∷ b'o' ∷ b'p' ∷ b'i' ∷ b'c' ∷ b'"' ∷ b':' ∷ b'"' ∷ []

abbrev message_text : List ℕ
message_text = b',' ∷ b'"' ∷ b'm' ∷ b'e' ∷ b's' ∷ b's' ∷ b'a' ∷ b'g' ∷ b'e' ∷ b'"' ∷ b':' ∷ []

abbrev time_text : List ℕ
time_text = b',' ∷ b'"' ∷ b't' ∷ b'i' ∷ b'm' ∷ b'e' ∷ b'"' ∷ b':' ∷ []

abbrev message_part : List ℕ → List ℕ
message_part [] = []
message_part (b ∷ bs) = message_text ++ (b ∷ bs)

-- The results of `AppendUint` and `AppendInt` are dropped, so that neither number is in the text.
unfoldable pub encode_event : {Time : Type 0} → ℕ → List ℕ → List ℕ → Time → List ℕ
encode_event tracker_id topic message t =
    1 ∷ tid_text
    ++ (topic_text ++ (topic ++ (b'"' ∷ message_part message ++ (time_text ++ (125 ∷ [])))))

unfoldable pub send_event :
    {Time : Type 0}
    → List ℕ
    → List ℕ
    → Time
    → (ℕ → Bool)
    → Sublist
    → SublistMap
    → Sublist × SublistMap × List Push
unfolding encode_event send
send_event topic message t closed s m =
    let s' = record s { event_data = encode_event s.key topic message t } in
    let (m', pushes) = send s.key s'.event_data closed s' m in (s', m', pushes)
