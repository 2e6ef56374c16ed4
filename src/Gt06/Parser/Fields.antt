-- ===== src/Gt06/Parser/Fields.antt =====
-- The payload layouts written out, and the parsers as their inverses.
use gpstracker_backend.Base.{
  ℕ, ◌+◌, ◌*◌, ◌/◌, ◌%◌, ◌^◌, ◌<◌, Bool, true, false, List, [], ◌∷◌, ◌++◌, ◌≡◌, refl, arith,
  bit_and, if◌then◌else◌,
}
use gpstracker_backend.Base.Bits.{bit_and_test, bit_and_mask, bit_and_step}
use native.Mathlib.Nat.{one-le-pow}
use gpstracker_backend.Base.Go.{ok, Slice, reslice_fits}
use gpstracker_backend.Base.Values.{Zone, Values}
use gpstracker_backend.Gt06.Parser.{
  StatusInfo, parse_status_information, CellInfo, parse_lbs_part, Position, parse_gps_part, degrees,
  flag,
}

abbrev digit : Bool → ℕ
digit true = 1
digit false = 0

-- The flag byte, from the highest bit down.
abbrev pub status_flags : StatusInfo → ℕ
status_flags s =
    digit s.engine_disc * 128
    + digit s.gps * 64
    + s.alarm_code * 8
    + digit s.charging * 4
    + digit s.acc * 2
    + digit s.armed

abbrev pub status_bytes : StatusInfo → List ℕ
status_bytes s = status_flags s ∷ s.voltage ∷ s.gsm_signal ∷ s.alt_alarm_code ∷ s.language ∷ []

digit-lt : (b : Bool) → digit b < 2
digit-lt true = omega arith
digit-lt false = omega arith

-- A flag is one binary digit.
flag-digit : (k a : ℕ) (b : Bool) → a / 2 ^ k % 2 ≡ digit b → flag a (2 ^ k) ≡ b
flag-digit k a true e = rw (bit_and_test k a, e) (ground (arith, one-le-pow k 2))
flag-digit k a false e = rw (bit_and_test k a, e) (ground arith)

-- The alarm code is the field of three digits above the third.
alarm_field : (a : ℕ) → bit_and a 0b00111000 / 2 ^ 3 ≡ a / 8 % 8
alarm_field a = omega (
  arith,
  bit_and_step a 56,
  bit_and_step (a / 2) 28,
  bit_and_step (a / 2 / 2) 14,
  bit_and_mask 3 (a / 2 / 2 / 2) 7 refl,
)

-- Every bit and byte of a status lands in its field, whatever follows the five bytes.
pub parse_status_information-status_bytes :
    (s : StatusInfo) (more spare : List ℕ)
    → s.alarm_code < 8
    → parse_status_information (record { vis = status_bytes s ++ more; spare = spare }) ≡ ok s
unfolding parse_status_information
parse_status_information-status_bytes s more spare h =
    rw
      (
        flag-digit 0 (status_flags s) s.armed d.0,
        flag-digit 1 (status_flags s) s.acc d.1,
        flag-digit 2 (status_flags s) s.charging d.2,
        flag-digit 6 (status_flags s) s.gps d.3,
        flag-digit 7 (status_flags s) s.engine_disc d.4,
        alarm_field (status_flags s),
        d.5,
      )
      refl
  where
    d :
        (status_flags s / 2 ^ 0 % 2 ≡ digit s.armed)
        × (status_flags s / 2 ^ 1 % 2 ≡ digit s.acc)
        × (status_flags s / 2 ^ 2 % 2 ≡ digit s.charging)
        × (status_flags s / 2 ^ 6 % 2 ≡ digit s.gps)
        × (status_flags s / 2 ^ 7 % 2 ≡ digit s.engine_disc)
        × (status_flags s / 8 % 8 ≡ s.alarm_code)
    d = omega (
      arith,
      digit-lt s.armed,
      digit-lt s.acc,
      digit-lt s.charging,
      digit-lt s.gps,
      digit-lt s.engine_disc,
    )

-- What a tracker puts into the eighteen bytes of a position.
pub record RawPosition : Type 0 where
  pub year : ℕ
  pub month : ℕ
  pub day : ℕ
  pub hour : ℕ
  pub minute : ℕ
  pub second : ℕ
  pub info : ℕ
  pub sats : ℕ
  pub lat : ℕ
  pub lon : ℕ
  pub kmh : ℕ
  pub differential : Bool
  pub positioned : Bool
  pub west : Bool
  pub north : Bool
  pub course : ℕ

pub record IsRaw (r : RawPosition) : Type 0 where
  pub sats_fit : r.sats < 16
  pub lat_fit : r.lat < 2 ^ 32
  pub lon_fit : r.lon < 2 ^ 32
  pub course_fit : r.course < 1024

abbrev pub position_flags : RawPosition → ℕ
position_flags r =
    digit r.differential * 32
    + digit r.positioned * 16
    + digit r.west * 8
    + digit r.north * 4
    + r.course / 256

abbrev pub word_bytes : ℕ → List ℕ → List ℕ
word_bytes w more = w / 2 ^ 24 ∷ w / 2 ^ 16 % 256 ∷ w / 2 ^ 8 % 256 ∷ w % 256 ∷ more

abbrev pub position_bytes : RawPosition → List ℕ → List ℕ
position_bytes r more =
    r.year
    ∷ r.month
    ∷ r.day
    ∷ r.hour
    ∷ r.minute
    ∷ r.second
    ∷ (r.info * 16 + r.sats)
    ∷ word_bytes r.lat (word_bytes r.lon (r.kmh ∷ position_flags r ∷ r.course % 256 ∷ more))

word_value :
    (w : ℕ)
    → w < 2 ^ 32
    → ((w / 2 ^ 24 * 256 + w / 2 ^ 16 % 256) * 256 + w / 2 ^ 8 % 256) * 256 + w % 256 ≡ w
word_value w h = omega arith

module _ (V : Values) where
  open V use {sub64, zero64, of_int32, mul32, div32, date}

  -- What those bytes stand for.
  abbrev pub meaning : RawPosition → Zone → Position V
  meaning r zone = record {
    timestamp = date (r.year + 2000) r.month r.day r.hour r.minute r.second zone;
    latitude = if r.north then degrees V r.lat else sub64 zero64 (degrees V r.lat);
    longitude = if r.west then sub64 zero64 (degrees V r.lon) else degrees V r.lon;
    course = r.course;
    sat_count = r.sats;
    speed = div32 (mul32 (of_int32 r.kmh) (of_int32 1000)) (of_int32 3600);
    gps_differential = r.differential;
    gps_positioned = r.positioned;
  }

  -- A position whose raw fields fit their bytes is decoded, from the eighteen bytes of its layout, into
  -- the values that the fields mean, whatever follows.
  pub parse_gps_part-position_bytes :
      (r : RawPosition) (zone : Zone) (more spare : List ℕ)
      → IsRaw r
      → parse_gps_part V (record { vis = position_bytes r more; spare = spare }) zone
        ≡ ok (meaning r zone)
  unfolding parse_gps_part
  parse_gps_part-position_bytes r zone more spare v =
      let d : Slice = record { vis = position_bytes r more; spare = spare } in
      rw
        (
          reslice_fits d 7 11 (omega arith) (omega arith),
          reslice_fits d 11 15 (omega arith) (omega arith),
          word_value r.lat v.lat_fit,
          word_value r.lon v.lon_fit,
          flag-digit 2 (position_flags r) r.north bits.0,
          flag-digit 3 (position_flags r) r.west bits.1,
          flag-digit 4 (position_flags r) r.positioned bits.2,
          flag-digit 5 (position_flags r) r.differential bits.3,
          bit_and_mask 2 (position_flags r) 3 refl,
          bit_and_mask 4 (r.info * 16 + r.sats) 15 refl,
          bits.4,
          bits.5,
        )
        refl
    where
      bits :
          (position_flags r / 2 ^ 2 % 2 ≡ digit r.north)
          × (position_flags r / 2 ^ 3 % 2 ≡ digit r.west)
          × (position_flags r / 2 ^ 4 % 2 ≡ digit r.positioned)
          × (position_flags r / 2 ^ 5 % 2 ≡ digit r.differential)
          × (position_flags r % 2 ^ 2 * 256 + r.course % 256 ≡ r.course)
          × ((r.info * 16 + r.sats) % 2 ^ 4 ≡ r.sats)
      bits = omega (
        arith,
        digit-lt r.north,
        digit-lt r.west,
        digit-lt r.positioned,
        digit-lt r.differential,
        v.course_fit,
        v.sats_fit,
      )

-- The eight bytes of a cell.
abbrev pub cell_bytes : CellInfo → List ℕ → List ℕ
cell_bytes c more =
    c.mcc / 256
    ∷ c.mcc % 256
    ∷ c.mnc
    ∷ c.lac / 256
    ∷ c.lac % 256
    ∷ c.cell_id / 2 ^ 16
    ∷ c.cell_id / 2 ^ 8 % 256
    ∷ c.cell_id % 256
    ∷ more

pub record IsCell (c : CellInfo) : Type 0 where
  pub mcc_fit : c.mcc < 2 ^ 16
  pub lac_fit : c.lac < 2 ^ 16
  pub cell_fit : c.cell_id < 2 ^ 24

-- A cell whose country and area codes fit two bytes and whose cell id fits three is decoded from the
-- eight bytes of its layout, whatever stands behind them.
pub parse_lbs_part-cell_bytes :
    (c : CellInfo) (more spare : List ℕ)
    → IsCell c
    → parse_lbs_part (record { vis = cell_bytes c more; spare = spare }) ≡ ok c
unfolding parse_lbs_part
parse_lbs_part-cell_bytes c more spare v =
    let d : Slice = record { vis = cell_bytes c more; spare = spare } in
    rw
      (
        reslice_fits d 0 2 (omega arith) (omega arith),
        reslice_fits d 3 5 (omega arith) (omega arith),
        reslice_fits d 5 8 (omega arith) (omega arith),
        two c.mcc,
        two c.lac,
        three c.cell_id,
      )
      refl
  where
    two : (w : ℕ) → w / 256 * 256 + w % 256 ≡ w
    two w = omega arith

    three : (w : ℕ) → ((0 * 256 + w / 2 ^ 16) * 256 + w / 2 ^ 8 % 256) * 256 + w % 256 ≡ w
    three w = omega arith
