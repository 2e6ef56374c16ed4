-- ===== src/Sublist/Encode.antt =====
-- The messages of internal/gpsv2/sublist/sublist.go read back.
use gpstracker_backend.Base.{
  ℕ, zero, suc, ◌+◌, ◌*◌, ◌/◌, ◌%◌, ◌^◌, ◌<◌, ◌≡◌, refl, List, [], ◌∷◌, length, take, drop, arith,
}
use gpstracker_backend.Base.Values.{Values}
use gpstracker_backend.Sublist.{little, encode_location, encode_event}

-- The number of little-endian bytes.
abbrev pub value : List ℕ → ℕ
value [] = 0
value (b ∷ bs) = b + value bs * 256

-- The bytes from `a` on, `n` of them, as a number.
abbrev pub word : ℕ → ℕ → List ℕ → ℕ
word a n bs = value (take n (drop a bs))

value-little : (n v : ℕ) → v < 256 ^ n → value (little n v) ≡ v
value-little zero v h = omega arith
value-little (suc n) v h = omega (arith, value-little n (v / 256) (omega (arith, h, power n)))
  where
    power : (k : ℕ) → 256 ^ suc k ≡ 256 * 256 ^ k
    power k = grind arith

module _ (V : Values) where
  open V use {F64, F32, Time, bits64, bits32, unix_milli, bits64-lt, bits32-lt, unix_milli-lt}

  -- A location message has 39 bytes, and its fields read back as the lowest 16 bits of the tracker
  -- id, the bits of the two coordinates and of the speed, and the two times in milliseconds.
  pub encode_location-word :
      (id : ℕ) (lat lon : F64) (speed : F32) (gps_time server_time : Time)
      → let d = encode_location V id lat lon speed gps_time server_time in
        (length d ≡ 39)
        × (word 0 1 d ≡ 0)
        × (word 1 2 d ≡ id % 2 ^ 16)
        × (word 3 8 d ≡ bits64 lat)
        × (word 11 8 d ≡ bits64 lon)
        × (word 19 4 d ≡ bits32 speed)
        × (word 23 8 d ≡ unix_milli gps_time)
        × (word 31 8 d ≡ unix_milli server_time)
  unfolding encode_location
  encode_location-word id lat lon speed gps_time server_time = (
    refl,
    refl,
    value-little 2 (id % 2 ^ 16) (omega arith),
    value-little 8 (bits64 lat) (bits64-lt lat),
    value-little 8 (bits64 lon) (bits64-lt lon),
    value-little 4 (bits32 speed) (bits32-lt speed),
    value-little 8 (unix_milli gps_time) (unix_milli-lt gps_time),
    value-little 8 (unix_milli server_time) (unix_milli-lt server_time),
  )

-- An event message depends neither on the tracker id nor on the time that it is given.
pub encode_event_anonymous :
    {Time : Type 0} (id id' : ℕ) (topic message : List ℕ) (t t' : Time)
    → encode_event id topic message t ≡ encode_event id' topic message t'
unfolding encode_event
encode_event_anonymous id id' topic message t t' = refl
