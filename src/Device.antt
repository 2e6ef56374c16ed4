-- ===== src/Device.antt =====
-- internal/gpsv2/device/device.go: serial numbers of devices.
pub mod Numbers
mod Runs
use gpstracker_backend.Base.{
  ℕ, ◌*◌, ◌/◌, ◌%◌, ◌^◌, List, [], ◌∷◌, bit_and, bit_or, ◌==◌, if◌then◌else◌,
}
use gpstracker_backend.Base.Values.{Values}
use gpstracker_backend.Base.Strconv.{format_uint}

pub record Serial : Type 0 where
  pub sn_type : ℕ
  pub nsn : ℕ
  pub sn : ℕ
  pub sn_type_string : List ℕ
  pub sn_string : List ℕ

-- The kinds of serial number are not negative; `<< 60` on a uint64 drops what does not fit.
unfoldable pub combine_sn : ℕ → ℕ → ℕ
combine_sn sn_type sn = bit_or (bit_and sn 0x0fffffffffffffff) (sn_type * 2 ^ 60 % 2 ^ 64)

unfoldable pub split_sn : ℕ → ℕ × ℕ
split_sn nsn = (nsn / 2 ^ 60, bit_and nsn 0x0fffffffffffffff)

-- The texts imei, mac, aid, misc1, misc2 and other.
unfoldable pub sn_type_string : ℕ → List ℕ
sn_type_string t =
    if t == 0
    then b'i' ∷ b'm' ∷ b'e' ∷ b'i' ∷ []
    else if t == 1
    then b'm' ∷ b'a' ∷ b'c' ∷ []
    else if t == 2
    then b'a' ∷ b'i' ∷ b'd' ∷ []
    else if t == 3
    then b'm' ∷ b'i' ∷ b's' ∷ b'c' ∷ b'1' ∷ []
    else if t == 4
    then b'm' ∷ b'i' ∷ b's' ∷ b'c' ∷ b'2' ∷ []
    else b'o' ∷ b't' ∷ b'h' ∷ b'e' ∷ b'r' ∷ []

unfoldable pub format_sn_pretty : ℕ → ℕ → List ℕ
format_sn_pretty t sn = if t == 0 then format_uint 10 sn else format_uint 16 sn

unfoldable pub new_serial : ℕ → ℕ → Serial
new_serial t sn = record {
  sn_type = t;
  nsn = combine_sn t sn;
  sn = sn;
  sn_type_string = sn_type_string t;
  sn_string = format_sn_pretty t sn;
}

unfoldable pub new_serial2 : ℕ → Serial
new_serial2 nsn =
    let (t, sn) = split_sn nsn in
    record {
      sn_type = t;
      nsn = nsn;
      sn = sn;
      sn_type_string = sn_type_string t;
      sn_string = format_sn_pretty t sn;
    }

module _ (V : Values) where
  open V use {F64, F32, Time}

  -- `device.Location`
  pub record Place : Type 0 where
    pub latitude : F64
    pub longitude : F64
    pub altitude : F32
    pub speed : F32
    pub timestamp : Time
