-- ===== src/Gt06/Parser/Login.antt =====
-- The login payload: which lengths the parser survives, and the serial number that it carries.
use mathlib.Core.List.{append_assoc}
use gpstracker_backend.Base.Int.{ℤ}
use gpstracker_backend.Base.{
  length-append, ℕ, ◌+◌, ◌-◌, ◌^◌, ◌≤◌, ◌<◌, Bool, List, ◌∷◌, ◌++◌, ◌≡◌, ◌≢◌, refl, ap, ◌∙◌, arith,
  length, take, drop, All, lt→ltb, le→ltb, dec_lt, take-append,
}
use gpstracker_backend.Base.Go.{
  Result, ok, err, panic, Slice, ◌>>=◌, reslice, reslice_within, reslice_fits,
}
use gpstracker_backend.Base.Strconv.{hex, parse_uint, parse_uint-hex, bcd_value, IsBcd}
use gpstracker_backend.Gt06.Parser.{LoginMessage, parse_type_id, parse_offset, parse_login_message}
use gpstracker_backend.Gt06.Parser.Totality.{Returns, bind-Returns, ends_at, past_index}

parse_type_id-Returns : (d : Slice) → 10 ≤ length d.vis + length d.spare → Returns (parse_type_id d)
unfolding parse_type_id
parse_type_id-Returns d h = elim (dec_lt 8 (length d.vis)) [
  | yes there ↦ rw (lt→ltb 8 (length d.vis) there, reslice_within d 8 10 (omega arith) h) (_, refl)
  | no absent ↦ rw (le→ltb 8 (length d.vis) (omega arith)) (_, refl)
]

parse_offset-eleven : (d : Slice) → length d.vis ≡ 11 → parse_offset d ≡ panic
unfolding parse_offset
parse_offset-eleven d h =
    rw (lt→ltb 10 (length d.vis) (omega arith))
      (past_index d 10 _ λ _. ends_at d 11 _ (omega arith))

offset_there :
    (xs spare : List ℕ)
    → 12 ≤ length xs
    → Returns (parse_offset (record { vis = xs; spare = spare }))
unfolding parse_offset
offset_there (x0 ∷ x1 ∷ x2 ∷ x3 ∷ x4 ∷ x5 ∷ x6 ∷ x7 ∷ x8 ∷ x9 ∷ x10 ∷ x11 ∷ xs) spare h =
    rw
      (lt→ltb 10 (length (x0 ∷ x1 ∷ x2 ∷ x3 ∷ x4 ∷ x5 ∷ x6 ∷ x7 ∷ x8 ∷ x9 ∷ x10 ∷ x11 ∷ xs))
        (omega arith))
      (_, refl)
offset_there _ spare h = absurd (omega arith)

parse_offset-Returns : (d : Slice) → length d.vis ≢ 11 → Returns (parse_offset d)
unfolding parse_offset
parse_offset-Returns d h = elim (dec_lt 10 (length d.vis)) [
  | yes there ↦ offset_there d.vis d.spare (omega arith)
  | no absent ↦ rw (le→ltb 10 (length d.vis) (omega arith)) (_, refl)
]

-- A login payload of exactly eleven bytes crashes the program; every other length is survived, if the
-- buffer goes on for ten bytes from the start of the payload.
pub parse_login_message_total :
    (d : Slice)
    → 10 ≤ length d.vis + length d.spare
    → (length d.vis ≡ 11 → parse_login_message d ≡ panic)
      × (length d.vis ≢ 11 → Returns (parse_login_message d))
unfolding parse_login_message
parse_login_message_total d h = (eleven, other)
  where
    first8 : Returns (reslice d 0 8)
    first8 = (_, reslice_within d 0 8 (omega arith) (omega arith))

    eleven : length d.vis ≡ 11 → parse_login_message d ≡ panic
    eleven e =
        let (s, es) = first8 in
        let (t, et) = parse_type_id-Returns d h in rw es (rw et (rw (parse_offset-eleven d e) refl))

    other : length d.vis ≢ 11 → Returns (parse_login_message d)
    other n = bind-Returns _ _ first8 λ s.
        bind-Returns _ _ (parse_type_id-Returns d h)
          λ t. bind-Returns _ _ (parse_offset-Returns d n) λ o. (_, refl)

sn_kept :
    (sn : List ℕ) (t : Result (List ℕ)) (o : Result (Bool × ℤ)) (m : LoginMessage)
    → (do
      u ← t
      v ← o
      ok (record { sn = sn; time_offset = v.1; has_time_offset = v.0; type_id = u }))
      ≡ ok m
    → m.sn ≡ sn
sn_kept sn (ok u) (ok v) m e = ground arith
sn_kept sn (ok u) (err x) m e = cc
sn_kept sn (ok u) panic m e = cc
sn_kept sn (err x) o m e = cc
sn_kept sn panic o m e = cc

-- Of a login that begins with eight bytes of packed decimal digits, the serial number reads as the
-- number of those digits, whatever follows; it has at most nineteen digits.
pub parse_login_message-sn :
    (bs more spare : List ℕ) (m : LoginMessage)
    → All IsBcd bs
    → length bs ≡ 8
    → parse_login_message (record { vis = bs ++ more; spare = spare }) ≡ ok m
    → (parse_uint 10 m.sn ≡ ok (bcd_value 0 bs)) × (bcd_value 0 bs < 10 ^ 19)
unfolding parse_login_message
parse_login_message-sn bs more spare m h hl e =
    rw
      (sn_kept (hex bs) (parse_type_id d) (parse_offset d) m
        (rw (reslice_fits d 0 8 (omega arith) (omega (arith, length-append bs more)), front) at e))
      (parse_uint-hex bs h hl)
  where
    d : Slice
    d = record { vis = bs ++ more; spare = spare }

    front : take (8 - 0) (drop 0 ((bs ++ more) ++ spare)) ≡ bs
    front = ap (take 8) (append_assoc bs more spare) ∙ take-append 8 bs (more ++ spare) hl
