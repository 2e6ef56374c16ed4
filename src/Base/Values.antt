-- ===== src/Base/Values.antt =====
-- Values of Go and its library that the program only makes, moves and stores: floats and times.
use Prim.Native.Nat.{ℕ, ◌+◌, ◌%◌, ◌^◌, ◌<◌}
use native.Mathlib.Omega.{arith}
use mathlib.Core.List.{List}

pub data Zone : Type 0 where
  utc local : Zone

-- A float operation rounds, and `time.Date` normalises; nothing below depends on how.
-- `bits64`, `bits32` and `unix_milli` give the words that `Float64bits`, `Float32bits` and
-- `uint64(t.UnixMilli())` give, and `checksum_x25` is `crc16.Checksum(crc16.X25, d)` of
-- internal/util/crc16, a copy of another library.
pub record Values : Type 1 where
  pub F64 : Type 0
  pub F32 : Type 0
  pub Time : Type 0
  pub zero64 : F64
  pub zero32 : F32
  pub no_time : Time
  pub of_int64 : ℕ → F64
  pub div64 : F64 → F64 → F64
  pub sub64 : F64 → F64 → F64
  pub of_int32 : ℕ → F32
  pub mul32 : F32 → F32 → F32
  pub div32 : F32 → F32 → F32
  pub minus_one32 : F32
  pub date : ℕ → ℕ → ℕ → ℕ → ℕ → ℕ → Zone → Time
  pub bits64 : F64 → ℕ
  pub bits32 : F32 → ℕ
  pub unix_milli : Time → ℕ
  pub checksum_x25 : List ℕ → ℕ
  pub bits64-lt : (x : F64) → bits64 x < 2 ^ 64
  pub bits32-lt : (x : F32) → bits32 x < 2 ^ 32
  pub unix_milli-lt : (t : Time) → unix_milli t < 2 ^ 64

pub fits64 : (x : ℕ) → x % 2 ^ 64 < 2 ^ 64
fits64 x = omega arith

pub fits32 : (x : ℕ) → x % 2 ^ 32 < 2 ^ 32
fits32 x = omega arith

-- Values to run the code on: a float is a number that division leaves alone, a time its year.
abbrev pub plain : Values
plain = record {
  F64 = ℕ;
  F32 = ℕ;
  Time = ℕ;
  zero64 = 0;
  zero32 = 0;
  no_time = 0;
  of_int64 = λ n. n;
  div64 = λ a b. a;
  sub64 = λ a b. b + 1;
  of_int32 = λ n. n;
  mul32 = λ a b. a;
  div32 = λ a b. a;
  minus_one32 = 1;
  date = λ y mo d h mi s z. y;
  bits64 = λ x. x % 2 ^ 64;
  bits32 = λ x. x % 2 ^ 32;
  unix_milli = λ t. t % 2 ^ 64;
  checksum_x25 = λ d. 0;
  bits64-lt = fits64;
  bits32-lt = fits32;
  unix_milli-lt = fits64;
}
