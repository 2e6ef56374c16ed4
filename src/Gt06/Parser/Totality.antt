-- ===== src/Gt06/Parser/Totality.antt =====
-- For which payloads the parsers return, and for which they panic.
use gpstracker_backend.Base.{
  ℕ, zero, suc, ◌+◌, ◌≤◌, ◌<◌, List, [], ◌∷◌, ◌++◌, ◌≡◌, refl, ap, arith, length, Option, none,
  some, get_elem?, dec_lt, length-append, inl, inr, ◌⊎◌,
}
use gpstracker_backend.Base.Go.{
  Result, ok, err, panic, Slice, ◌>>=◌, or_panic, index, reslice, from, reslice_fits,
  reslice_within, from_fits,
}
use gpstracker_backend.Base.Values.{Zone, local, Values}
use gpstracker_backend.Gt06.Parser.{
  parse_status_information, be16, be32, parse_lbs_part, Position, parse_gps_part, GpsMessage,
  parse_gt06_gps_message,
}

abbrev pub Returns {ℓ} : {A : Type ℓ} → Result A → Type ℓ
Returns {A = A} r = (a : A) × (r ≡ ok a)

-- An outcome that is no error value.
abbrev NoError {ℓ} : {A : Type ℓ} → Result A → Type 0
NoError (ok a) = Unit
NoError (err e) = ⊥
NoError panic = Unit

module _ {ℓ κ} {A : Type ℓ} {B : Type κ} where
  bind_panic :
      (m : Result A) (f : A → Result B) → NoError m → ((a : A) → f a ≡ panic) → (m >>= f) ≡ panic
  bind_panic (ok a) f n h = h a
  bind_panic (err e) f n h = absurd n
  bind_panic panic f n h = refl

  panic_bind : (m : Result A) (f : A → Result B) → m ≡ panic → (m >>= f) ≡ panic
  panic_bind m f e = rw e refl

  bind-NoError :
      (m : Result A) (f : A → Result B) → NoError m → ((a : A) → NoError (f a)) → NoError (m >>= f)
  bind-NoError (ok a) f n h = h a
  bind-NoError (err e) f n h = absurd n
  bind-NoError panic f n h = tt

or_panic-NoError : (o : Option ℕ) → NoError (or_panic o)
or_panic-NoError none = tt
or_panic-NoError (some a) = tt

index-NoError : (d : Slice) (i : ℕ) → NoError (index d i)
index-NoError d i = or_panic-NoError (get_elem? d.vis i)

reslice-NoError : (d : Slice) (a b : ℕ) → NoError (reslice d a b)
reslice-NoError d a b = ground arith

get_elem?_beyond : (xs : List ℕ) (i : ℕ) → length xs ≤ i → get_elem? xs i ≡ none
get_elem?_beyond [] i h = refl
get_elem?_beyond (x ∷ xs) zero h = absurd (omega arith)
get_elem?_beyond (x ∷ xs) (suc i) h = get_elem?_beyond xs i (omega arith)

index_beyond : (d : Slice) (i : ℕ) → length d.vis ≤ i → index d i ≡ panic
index_beyond d i h = ap or_panic (get_elem?_beyond d.vis i h)

be16-NoError : (d : Slice) → NoError (be16 d)
unfolding be16
be16-NoError d =
    bind-NoError _ _ (index-NoError d 1) λ a. bind-NoError _ _ (index-NoError d 0) λ b. tt

be32-NoError : (d : Slice) → NoError (be32 d)
unfolding be32
be32-NoError d = bind-NoError _ _ (index-NoError d 3) λ a.
    bind-NoError _ _ (index-NoError d 0)
      λ b. bind-NoError _ _ (index-NoError d 1) λ c. bind-NoError _ _ (index-NoError d 2) λ e. tt

module _ {ℓ} {B : Type ℓ} (d : Slice) where
  -- Steps that do not decide the outcome.
  pub past_index : (i : ℕ) (f : ℕ → Result B) → ((a : ℕ) → f a ≡ panic) → (index d i >>= f) ≡ panic
  past_index i f = bind_panic (index d i) f (index-NoError d i)

  pub past_reslice :
      (a b : ℕ) (f : Slice → Result B) → ((s : Slice) → f s ≡ panic) → (reslice d a b >>= f) ≡ panic
  past_reslice a b f = bind_panic (reslice d a b) f (reslice-NoError d a b)

  past_be32 : (f : ℕ → Result B) → ((w : ℕ) → f w ≡ panic) → (be32 d >>= f) ≡ panic
  past_be32 f = bind_panic (be32 d) f (be32-NoError d)

  past_be16 : (f : ℕ → Result B) → ((w : ℕ) → f w ≡ panic) → (be16 d >>= f) ≡ panic
  past_be16 f = bind_panic (be16 d) f (be16-NoError d)

  pub ends_at : (i : ℕ) (f : ℕ → Result B) → length d.vis ≤ i → (index d i >>= f) ≡ panic
  ends_at i f h = panic_bind (index d i) f (index_beyond d i h)

-- A position of fewer than eighteen bytes crashes the parser, whatever stands behind it in the buffer.
pub parse_gps_part_short :
    (V : Values) (d : Slice) (zone : Zone) → length d.vis < 18 → parse_gps_part V d zone ≡ panic
unfolding parse_gps_part
parse_gps_part_short V d zone h = past_index d 0 _ λ _. past_index d 1 _ λ _. past_index d 2 _ λ _.
    past_index d 3 _ λ _. past_index d 4 _ λ _. past_index d 5 _ λ _. past_index d 6 _ λ _.
      past_reslice d 7 11 _ λ a. past_be32 a _ λ _. past_reslice d 11 15 _ λ b.
        past_be32 b _
          λ _. past_index d 15 _ λ _. past_index d 16 _ λ _. ends_at d 17 _ (omega arith)

-- With eighteen it returns.
pub parse_gps_part_long :
    (V : Values) (xs spare : List ℕ) (zone : Zone)
    → 18 ≤ length xs
    → Returns (parse_gps_part V (record { vis = xs; spare = spare }) zone)
unfolding parse_gps_part be32 be16
parse_gps_part_long V
      (x0 ∷ x1 ∷ x2 ∷ x3 ∷ x4 ∷ x5 ∷ x6 ∷ x7 ∷ x8 ∷ x9 ∷ x10 ∷ x11 ∷ x12 ∷ x13 ∷ x14 ∷ x15 ∷ x16
        ∷ x17 ∷ xs)
      spare zone h =
    let d : Slice = record {
      vis =
          x0 ∷ x1 ∷ x2 ∷ x3 ∷ x4 ∷ x5 ∷ x6 ∷ x7 ∷ x8 ∷ x9 ∷ x10 ∷ x11 ∷ x12 ∷ x13 ∷ x14 ∷ x15 ∷ x16
          ∷ x17 ∷ xs;
      spare = spare;
    } in
    rw
      (
        reslice_fits d 7 11 (omega arith) (omega arith),
        reslice_fits d 11 15 (omega arith) (omega arith),
      )
      (_, refl)
parse_gps_part_long V _ spare zone h = absurd (omega arith)

-- With three it returns if the buffer goes on for eight bytes: the area and the cell are then read
-- from whatever stands behind the payload.
lbs_over :
    (x0 x1 x2 : ℕ) (xs spare zs : List ℕ)
    → xs ++ spare ≡ zs
    → 5 ≤ length zs
    → Returns (parse_lbs_part (record { vis = x0 ∷ x1 ∷ x2 ∷ xs; spare = spare }))
unfolding parse_lbs_part be16 be32
lbs_over x0 x1 x2 xs spare (y0 ∷ y1 ∷ y2 ∷ y3 ∷ y4 ∷ zs) e h =
    let d : Slice = record { vis = x0 ∷ x1 ∷ x2 ∷ xs; spare = spare } in
    let room : 8 ≤ length d.vis + length d.spare =
      omega (arith, length-append xs spare, ap length e) in
    rw
      (
        reslice_within d 0 2 (omega arith) (omega arith),
        reslice_within d 3 5 (omega arith) (omega arith),
        reslice_within d 5 8 (omega arith) room,
        e,
      )
      (_, refl)
lbs_over x0 x1 x2 xs spare _ e h = absurd (omega arith)

pub parse_lbs_part_long :
    (xs spare : List ℕ)
    → 3 ≤ length xs
    → 8 ≤ length xs + length spare
    → Returns (parse_lbs_part (record { vis = xs; spare = spare }))
parse_lbs_part_long (x0 ∷ x1 ∷ x2 ∷ xs) spare h k =
    lbs_over x0 x1 x2 xs spare (xs ++ spare) refl (omega (arith, length-append xs spare))
parse_lbs_part_long _ spare h k = absurd (omega arith)

Returns-NoError {ℓ} : {A : Type ℓ} (r : Result A) → Returns r → NoError r
Returns-NoError (ok a) h = tt
Returns-NoError (err e) h = cc (h.1)
Returns-NoError panic h = tt

-- A cell of fewer than three bytes crashes the parser.
pub parse_lbs_part_short : (d : Slice) → length d.vis < 3 → parse_lbs_part d ≡ panic
unfolding parse_lbs_part
parse_lbs_part_short d h = past_reslice d 0 2 _ λ a. past_be16 a _ λ _. ends_at d 2 _ (omega arith)

pub parse_status_information_short :
    (d : Slice) → length d.vis < 5 → parse_status_information d ≡ panic
unfolding parse_status_information
parse_status_information_short d h = past_index d 0 _ λ _.
    past_index d 1 _ λ _. past_index d 2 _ λ _. past_index d 3 _ λ _. ends_at d 4 _ (omega arith)

pub bind-Returns {ℓ κ} :
    {A : Type ℓ} {B : Type κ} (m : Result A) (f : A → Result B)
    → Returns m
    → ((a : A) → Returns (f a))
    → Returns (m >>= f)
bind-Returns m f (a, e) h = rw e (h a)

module _ (V : Values) (d : Slice) (behind : 5 ≤ length d.spare) where
  -- What the parser does once it has the position.
  abbrev with_cell : Position V → Result (GpsMessage V)
  with_cell p = do rest ← from d 18; c ← parse_lbs_part rest; ok (record { position = p; cell = c })

  cell_part_short : 18 ≤ length d.vis → length d.vis < 21 → (p : Position V) → with_cell p ≡ panic
  cell_part_short h k p =
      let (t, e, len, _) = from_fits d 18 h in rw e (rw (parse_lbs_part_short t (omega arith)) refl)

  cell_part_long : 21 ≤ length d.vis → (p : Position V) → Returns (with_cell p)
  cell_part_long h p =
      let (t, e, len, cap) = from_fits d 18 (omega arith) in
      let (c, f) = parse_lbs_part_long t.vis t.spare (omega arith) (omega arith) in
      rw e (rw f (_, refl))

  -- A location payload of at most twenty bytes brings the program down; one of at least twenty-one
  -- is accepted, when the five bytes that a frame always has behind its payload are in the buffer.
  pub parse_gt06_gps_message_total :
      ((length d.vis < 21) × (parse_gt06_gps_message V d ≡ panic))
      ⊎ ((21 ≤ length d.vis) × Returns (parse_gt06_gps_message V d))
  unfolding parse_gt06_gps_message
  parse_gt06_gps_message_total = elim (dec_lt (length d.vis) 18) [
    | yes tiny ↦ inl (omega arith, panic_bind _ _ (parse_gps_part_short V d local tiny))
    | no some_more ↦ elim (dec_lt (length d.vis) 21) [
      | yes short ↦ inl (
        short,
        bind_panic (parse_gps_part V d local) with_cell
            (Returns-NoError _ (parse_gps_part_long V d.vis d.spare local (omega arith)))
            (cell_part_short (omega arith) short),
      )
      | no long ↦ inr (
        omega arith,
        bind-Returns (parse_gps_part V d local) with_cell
            (parse_gps_part_long V d.vis d.spare local (omega arith))
            (cell_part_long (omega arith)),
      )
    ]
  ]
