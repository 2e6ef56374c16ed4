-- ===== src/Gt06/Frame/Shape.antt =====
-- What `newFrame` writes, byte by byte.
use mathlib.Core.List.{append_assoc}
use gpstracker_backend.Base.{
  ℕ, suc, ◌+◌, ◌-◌, ◌/◌, ◌%◌, ◌^◌, List, [], ◌∷◌, ◌++◌, length, set, take, replicate, ◌≡◌, refl,
  sym, ap, ◌∙◌, arith, length-append, set-append_right, replicate-add, take-append,
}
use gpstracker_backend.Base.Go.{overlay}
use gpstracker_backend.Gt06.Frame.{put_u16, seal, new_frame}

-- The part of a frame that the checksum covers: length, protocol, payload, serial.
abbrev pub covered : ℕ → List ℕ → ℕ → List ℕ
covered protocol payload serial =
    (length payload + 5) % 256
    ∷ protocol
    ∷ (payload ++ serial % 2 ^ 16 / 256 % 256 ∷ serial % 2 ^ 16 % 256 ∷ [])

-- A frame with any two bytes in the place of the checksum.
abbrev pub framed : ℕ → List ℕ → ℕ → ℕ → ℕ → List ℕ
framed protocol payload serial c1 c0 =
    0x78
    ∷ 0x78
    ∷ (length payload + 5) % 256
    ∷ protocol
    ∷ (payload ++ serial % 2 ^ 16 / 256 % 256 ∷ serial % 2 ^ 16 % 256 ∷ c1 ∷ c0 ∷ 0x0d ∷ 0x0a ∷ [])

abbrev prefix : ℕ → List ℕ → List ℕ
prefix protocol payload = 0x78 ∷ 0x78 ∷ (length payload + 5) % 256 ∷ protocol ∷ payload

zeros_shape :
    (n : ℕ) → replicate {A = ℕ} (n + 10) 0 ≡ 0 ∷ 0 ∷ 0 ∷ 0 ∷ (replicate n 0 ++ replicate 6 0)
zeros_shape n = rw (more n) (ap (λ t. 0 ∷ 0 ∷ 0 ∷ 0 ∷ t) (replicate-add n 6 0))
  where
    more : (k : ℕ) → k + 10 ≡ suc (suc (suc (suc (k + 6))))
    more k = omega arith

payload_copied :
    (payload rest : List ℕ)
    → overlay (replicate (length payload) 0 ++ rest) payload ≡ payload ++ rest
payload_copied [] [] = refl
payload_copied [] (x ∷ rest) = refl
payload_copied (b ∷ payload) rest = ap (λ t. b ∷ t) (payload_copied payload rest)

put_u16-right :
    (xs ys : List ℕ) (i k v : ℕ)
    → i ≡ length xs + k
    → put_u16 (xs ++ ys) i v ≡ xs ++ set (set ys k (v / 256 % 256)) (k + 1) (v % 256)
unfolding put_u16
put_u16-right xs ys i k v h =
    ap (λ t. set t (i + 1) (v % 256)) (set-append_right xs ys i k (v / 256 % 256) h)
    ∙ set-append_right xs (set ys k (v / 256 % 256)) (i + 1) (k + 1) (v % 256) (omega arith)

covered_slice :
    (protocol : ℕ) (payload : List ℕ) (s1 s0 : ℕ) (rest : List ℕ) (l n : ℕ)
    → n ≡ length payload + 4
    → take n (l ∷ protocol ∷ (payload ++ s1 ∷ s0 ∷ rest)) ≡ l ∷ protocol ∷ (payload ++ s1 ∷ s0 ∷ [])
covered_slice protocol payload s1 s0 rest l n h =
    ap (take n) (ap (λ t. l ∷ protocol ∷ t) (sym (append_assoc payload (s1 ∷ s0 ∷ []) rest)))
    ∙ take-append n (l ∷ protocol ∷ (payload ++ s1 ∷ s0 ∷ [])) rest
        (omega (arith, length-append payload (s1 ∷ s0 ∷ [])))

abbrev tail_of : ℕ → ℕ → ℕ → ℕ → List ℕ
tail_of s1 s0 c1 c0 = s1 ∷ s0 ∷ c1 ∷ c0 ∷ 0x0d ∷ 0x0a ∷ []

module _ (checksum : List ℕ → ℕ) where
  seal_lem :
      (protocol : ℕ) (payload : List ℕ) (s1 s0 lf : ℕ)
      → lf ≡ length payload + 10
      → let covered_part = (length payload + 5) % 256 ∷ protocol ∷ (payload ++ s1 ∷ s0 ∷ []) in
        let crc = checksum covered_part in
        seal checksum (prefix protocol payload ++ s1 ∷ s0 ∷ 0 ∷ 0 ∷ 0 ∷ 0 ∷ []) lf
        ≡ prefix protocol payload ++ tail_of s1 s0 (crc / 256 % 256) (crc % 256)
  unfolding seal
  seal_lem protocol payload s1 s0 lf h =
      let xs = prefix protocol payload in
      ap (λ t. finish (checksum t))
        (covered_slice protocol payload s1 s0 (0 ∷ 0 ∷ 0 ∷ 0 ∷ []) _ (lf - 6) (omega arith))
      ∙ ap (λ t. set (set t (lf - 2) 0x0d) (lf - 1) 0x0a)
          (put_u16-right xs (s1 ∷ s0 ∷ 0 ∷ 0 ∷ 0 ∷ 0 ∷ []) (lf - 4) 2 crc (omega arith))
      ∙ ap (λ t. set t (lf - 1) 0x0a) (set-append_right xs _ (lf - 2) 4 0x0d (omega arith))
      ∙ set-append_right xs _ (lf - 1) 5 0x0a (omega arith)
    where
      finish : ℕ → List ℕ
      finish c =
          set
            (set (put_u16 (prefix protocol payload ++ s1 ∷ s0 ∷ 0 ∷ 0 ∷ 0 ∷ 0 ∷ []) (lf - 4) c)
              (lf - 2) 0x0d)
            (lf - 1) 0x0a

      crc : ℕ
      crc = checksum ((length payload + 5) % 256 ∷ protocol ∷ (payload ++ s1 ∷ s0 ∷ []))

  -- A frame is the start bytes, the covered part, its checksum and the trailer.
  pub new_frame-framed :
      (protocol : ℕ) (payload : List ℕ) (serial : ℕ)
      → let crc = checksum (covered protocol payload serial) in
        new_frame checksum protocol payload serial
        ≡ framed protocol payload serial (crc / 256 % 256) (crc % 256)
  unfolding new_frame
  new_frame-framed protocol payload serial =
      rw (zeros_shape (length payload), payload_copied payload (replicate 6 0))
        (ap (λ t. seal checksum t (length payload + 10))
            (put_u16-right (prefix protocol payload) (replicate 6 0) (length payload + 10 - 6) 0
              (serial % 2 ^ 16) (omega arith))
          ∙ seal_lem protocol payload (serial % 2 ^ 16 / 256 % 256) (serial % 2 ^ 16 % 256)
              (length payload + 10) refl)
