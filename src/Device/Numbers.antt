-- ===== src/Device/Numbers.antt =====
-- Laws of the serial numbers of internal/gpsv2/device/device.go.
use gpstracker_backend.Base.{
  ℕ, ◌+◌, ◌*◌, ◌/◌, ◌%◌, ◌^◌, ◌<◌, ◌≡◌, refl, ap, ◌∙◌, ◌==◌, if◌then◌else◌, inl, inr, arith,
  Bool-cases, bit_or,
}
use gpstracker_backend.Base.Bits.{bit_and_mask, bit_or_fields}
use gpstracker_backend.Base.Go.{ok}
use gpstracker_backend.Base.Strconv.{parse_uint, parse_uint-format_uint}
use gpstracker_backend.Device.{
  combine_sn, split_sn, format_sn_pretty, new_serial, new_serial2, Serial,
}

-- The kind stands above the lower sixty bits of the number.
combine_sn_fields : (t sn : ℕ) → combine_sn t sn ≡ t % 16 * 2 ^ 60 + sn % 2 ^ 60
unfolding combine_sn
combine_sn_fields t sn =
    ap (λ x. bit_or x (t * 2 ^ 60 % 2 ^ 64)) (bit_and_mask 60 sn 0x0fffffffffffffff refl)
    ∙ ap (bit_or (sn % 2 ^ 60)) (omega arith)
    ∙ bit_or_fields 60 (t % 16) (sn % 2 ^ 60) (omega arith)

split_sn_fields : (n : ℕ) → split_sn n ≡ (n / 2 ^ 60, n % 2 ^ 60)
unfolding split_sn
split_sn_fields n = ap (λ x. (n / 2 ^ 60, x)) (bit_and_mask 60 n 0x0fffffffffffffff refl)

-- For every kind and number, splitting what was combined gives back the lowest four bits of the
-- kind and the lowest sixty bits of the number.
pub split_sn-combine_sn : (t sn : ℕ) → split_sn (combine_sn t sn) ≡ (t % 16, sn % 2 ^ 60)
split_sn-combine_sn t sn =
    ap split_sn (combine_sn_fields t sn)
    ∙ split_sn_fields (t % 16 * 2 ^ 60 + sn % 2 ^ 60)
    ∙ (λ i. (high i, low i))
  where
    high : (t % 16 * 2 ^ 60 + sn % 2 ^ 60) / 2 ^ 60 ≡ t % 16
    high = omega arith

    low : (t % 16 * 2 ^ 60 + sn % 2 ^ 60) % 2 ^ 60 ≡ sn % 2 ^ 60
    low = omega arith

-- Every uint64 is the combination of the kind and the number that it splits into.
pub combine_sn-split_sn : (n : ℕ) → n < 2 ^ 64 → combine_sn (split_sn n).0 (split_sn n).1 ≡ n
combine_sn-split_sn n h =
    combine_sn_fields (split_sn n).0 (split_sn n).1
    ∙ ap (λ p. p.0 % 16 * 2 ^ 60 + p.1 % 2 ^ 60) (split_sn_fields n)
    ∙ omega arith

-- A kind below 16 and a number below 2^60: the serial that is rebuilt from the combined number
-- is the one that was made, its texts included.
pub new_serial2-new_serial :
    (t sn : ℕ) → t < 16 → sn < 2 ^ 60 → new_serial2 (new_serial t sn).nsn ≡ new_serial t sn
unfolding new_serial2 new_serial
new_serial2-new_serial t sn ht hsn =
    ap rebuilt (split_sn-combine_sn t sn ∙ (λ i. (kind i, number i)))
  where
    rebuilt : ℕ × ℕ → Serial
    rebuilt p = record (new_serial p.0 p.1) { nsn = combine_sn t sn }

    kind : t % 16 ≡ t
    kind = omega arith

    number : sn % 2 ^ 60 ≡ sn
    number = omega arith

-- The printed form of a uint64 serial reads back as the serial, in base 10 for an IMEI and in
-- base 16 for every other kind.
pub parse_uint-format_sn_pretty :
    (t sn : ℕ)
    → sn < 2 ^ 64
    → parse_uint (if t == 0 then 10 else 16) (format_sn_pretty t sn) ≡ ok sn
unfolding format_sn_pretty
parse_uint-format_sn_pretty t sn h = elim (Bool-cases (t == 0)) [
  | inl y ↦ rw y (parse_uint-format_uint 10 sn (omega arith) (omega arith) h)
  | inr n ↦ rw n (parse_uint-format_uint 16 sn (omega arith) (omega arith) h)
]
