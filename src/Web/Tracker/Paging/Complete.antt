-- ===== src/Web/Tracker/Paging/Complete.antt =====
-- Who follows the pointer from page to page misses no row and sees none twice.
use gpstracker_backend.Base.{
  ℕ, zero, suc, ◌+◌, ◌*◌, ◌<◌, ◌≤◌, ◌≡◌, refl, sym, ap, ◌∙◌, Bool, false, ◌&&◌, List, [], ◌∷◌, ◌++◌,
  take, drop, All, ltb, ◌==◌, arith, inl, inr, Bool-cases, lt→ltb, le→ltb, ltb→lt,
}
use mathlib.Core.Path.{subst}
use mathlib.Core.List.{Perm}
use gpstracker_backend.Base.Go.{Result, ok, err, panic}
use gpstracker_backend.Base.Int.{pos}
use gpstracker_backend.Web.Tracker.Paging.{
  PageRequest, Columns, where_rows, order_desc, wanted, page,
}
use gpstracker_backend.Web.Tracker.Paging.Order.{
  IsDescending, below, IsDistinct, All-order, order_desc-IsDescending, order_desc-Perm, All-where,
  where-IsDistinct, where-All, where_order,
}

module _ {A : Type 0} (key : A → ℕ) where
  -- The key of the last row, or the pointer before when there is none.
  abbrev pub last_key : ℕ → List A → ℕ
  last_key p [] = p
  last_key p (x ∷ xs) = last_key (key x) xs

  -- The last of the first rows is one of them.
  last_key-holds {κ} :
      (P : ℕ → Type κ) (n : ℕ) (x : A) (xs : List A)
      → All (λ y. P (key y)) (x ∷ xs)
      → P (last_key (key x) (take n xs))
  last_key-holds P zero x xs (h, rest) = h
  last_key-holds P (suc n) x [] (h, rest) = h
  last_key-holds P (suc n) x (y ∷ ys) (h, rest) = last_key-holds P n y ys rest

  -- The rows below key the last of the first `suc n` ones are the rows after them.
  where_below_last :
      (n : ℕ) (x : A) (xs : List A)
      → IsDescending key (x ∷ xs)
      → where_rows (below key (last_key (key x) (take n xs))) (x ∷ xs) ≡ drop n xs
  where_below_last zero x xs (h, rest) =
      rw (le→ltb (key x) (key x) (omega arith)) (where-All key (key x) xs h)
  where_below_last (suc n) x [] (h, rest) = rw (le→ltb (key x) (key x) (omega arith)) refl
  where_below_last (suc n) x (y ∷ ys) (h, rest) =
      rw
        (le→ltb (key x) (last_key (key y) (take n ys))
          (omega (arith, last_key-holds (λ k. k < key x) n y ys h)))
        (where_below_last n y ys rest)

  -- A smaller pointer may be put to what a larger one has left.
  where_twice :
      (w : A → Bool) (l p : ℕ) (xs : List A)
      → l ≤ p
      → where_rows (λ x. w x && below key l x) xs
        ≡ where_rows (below key l) (where_rows (λ x. w x && below key p x) xs)
  where_twice w l p [] h = refl
  where_twice w l p (x ∷ xs) h =
      let later = where_twice w l p xs h in
      elim (Bool-cases (w x)) [
        | inr n ↦ rw n later
        | inl y ↦ rw y (elim (Bool-cases (below key l x)) [
          | inl small ↦
              let lower = lt→ltb (key x) p (omega (arith, ltb→lt (key x) l small)) in
              rw (small, lower) (rw small (ap (λ t. x ∷ t) later))
          | inr large ↦ elim (Bool-cases (below key p x)) [
            | inl lower ↦ rw (large, lower) (rw large later)
            | inr upper ↦ rw (large, upper) later
          ]
        ])
      ]

  where_below :
      (w : A → Bool) (p : ℕ) (xs : List A)
      → All (λ y. key y < p) (where_rows (λ x. w x && below key p x) xs)
  where_below w p [] = tt
  where_below w p (x ∷ xs) = elim (Bool-cases (w x)) [
    | inr n ↦ rw n (where_below w p xs)
    | inl y ↦ rw y (elim (Bool-cases (below key p x)) [
      | inl small ↦ rw small (ltb→lt (key x) p small, where_below w p xs)
      | inr large ↦ rw large (where_below w p xs)
    ])
  ]

module _ {A : Type 0} where
  take_nil : (n : ℕ) → take {A = A} n [] ≡ []
  take_nil zero = refl
  take_nil (suc n) = refl

  take_add : (m n : ℕ) (xs : List A) → take m xs ++ take n (drop m xs) ≡ take (m + n) xs
  take_add zero n xs = ap (λ k. take k xs) (omega arith)
  take_add (suc m) n [] = take_nil n ∙ sym (take_nil (suc m + n))
  take_add (suc m) n (x ∷ xs) = ap (λ t. x ∷ t) (take_add m n xs) ∙ ap (λ k. take k (x ∷ xs)) more
    where
      more : suc (m + n) ≡ suc m + n
      more = omega arith

  rows_or_none : Result (List A) → List A
  rows_or_none (ok xs) = xs
  rows_or_none (err e) = []
  rows_or_none panic = []

module _ {A : Type 0} (c : Columns A) (now : ℕ) (req : PageRequest) (table : List A) where
  pub page_at : ℕ → List A
  unfolding rows_or_none
  page_at p = rows_or_none (page c now (record req { pointer = p }) false table)

  -- The rows of `k` pages, each asked for with the number of the last row so far.
  abbrev pub follow : ℕ → ℕ → List A
  follow zero p = []
  follow (suc k) p = let xs = page_at p in let rest = follow k (last_key c.id_of p xs) in xs ++ rest

  -- The rows that are asked for, below the pointer.
  abbrev pub rows_below : ℕ → List A
  rows_below p = where_rows (λ x. wanted c req x && ltb (c.id_of x) p) table

  -- The same rows, from the highest number down.
  abbrev pub ordered : ℕ → List A
  ordered p = order_desc c.id_of (rows_below p)

  page_at-take : (n p : ℕ) → req.limit ≡ pos (suc n) → 0 < p → page_at p ≡ take (suc n) (ordered p)
  unfolding page page_at rows_or_none
  page_at-take n p limit more =
      let not_zero : (p == 0) ≡ false = ground arith in
      let some_rows : (suc n == 0) ≡ false = ground arith in rw (not_zero, limit, some_rows) refl

  rows_below-IsDistinct : (p : ℕ) → IsDistinct c.id_of table → IsDistinct c.id_of (rows_below p)
  rows_below-IsDistinct p =
      where-IsDistinct c.id_of (λ x. wanted c req x && ltb (c.id_of x) p) table

  next_rows :
      (n p : ℕ) (x : A) (xs : List A)
      → ordered p ≡ x ∷ xs
      → IsDistinct c.id_of table
      → IsDescending c.id_of (x ∷ xs)
      → All (λ y. c.id_of y < p) (x ∷ xs)
      → ordered (last_key c.id_of (c.id_of x) (take n xs)) ≡ drop n xs
  next_rows n p x xs e ids down small =
      let l = last_key c.id_of (c.id_of x) (take n xs) in
      let less = last_key-holds c.id_of (λ k. k < p) n x xs small in
      ap (order_desc c.id_of) (where_twice c.id_of (wanted c req) l p table (omega (arith, less)))
      ∙ sym (where_order c.id_of l (rows_below p) (rows_below-IsDistinct p ids))
      ∙ ap (where_rows (below c.id_of l)) e
      ∙ where_below_last c.id_of n x xs down

  follow_rows :
      (k n p : ℕ) (xs : List A)
      → ordered p ≡ xs
      → req.limit ≡ pos (suc n)
      → 0 < p
      → IsDistinct c.id_of table
      → All (λ x. 0 < c.id_of x) table
      → follow k p ≡ take (k * suc n) xs
  follow_rows zero n p xs e limit more ids above = ap (λ m. take m xs) none_left
    where
      none_left : 0 ≡ 0 * suc n
      none_left = grind arith
  follow_rows (suc k) n p [] e limit more ids above =
      rw (page_at-take n p limit more, e)
        (follow_rows k n p [] e limit more ids above
          ∙ take_nil (k * suc n)
          ∙ sym (take_nil (suc k * suc n)))
  follow_rows (suc k) n p (x ∷ xs) e limit more ids above =
      rw (page_at-take n p limit more, e)
        (ap (λ t. x ∷ (take n xs ++ t))
            (follow_rows k n (last_key c.id_of (c.id_of x) (take n xs)) (drop n xs)
              (next_rows n p x xs e ids sorted small) limit positive ids above)
          ∙ ap (λ t. x ∷ t) (take_add n (k * suc n) xs)
          ∙ ap (λ m. take m (x ∷ xs)) count)
    where
      cond : A → Bool
      cond y = wanted c req y && ltb (c.id_of y) p

      sorted : IsDescending c.id_of (x ∷ xs)
      sorted =
          subst (IsDescending c.id_of) e
            (order_desc-IsDescending c.id_of (rows_below p) (rows_below-IsDistinct p ids))

      small : All (λ y. c.id_of y < p) (x ∷ xs)
      small = subst (All (λ y. c.id_of y < p)) e (
          All-order c.id_of (λ y. c.id_of y < p) (rows_below p)
            (where_below c.id_of (wanted c req) p table))

      high : All (λ y. 0 < c.id_of y) (x ∷ xs)
      high = subst (All (λ y. 0 < c.id_of y)) e (
          All-order c.id_of (λ y. 0 < c.id_of y) (rows_below p)
            (All-where c.id_of (λ y. 0 < c.id_of y) cond table above))

      positive : 0 < last_key c.id_of (c.id_of x) (take n xs)
      positive = last_key-holds c.id_of (λ m. 0 < m) n x xs high

      count : suc (n + k * suc n) ≡ suc k * suc n
      count = grind arith

  -- A table has its rows in any order, with numbers above zero of which no two are the same, and a
  -- request has a limit. The rows that it asks for below the first pointer, each once and from the
  -- highest number down, are what a client gets, page behind page, who follows the pointer from the
  -- number of the last row to the next page: none is missed, none comes twice, and `k` pages have
  -- `k` times the limit as long as there are rows.
  pub follow-take :
      (k n p : ℕ)
      → req.limit ≡ pos (suc n)
      → 0 < p
      → IsDistinct c.id_of table
      → All (λ x. 0 < c.id_of x) table
      → IsDescending c.id_of (ordered p)
        × Perm (rows_below p) (ordered p)
        × (follow k p ≡ take (k * suc n) (ordered p))
  follow-take k n p limit more ids above = (
    order_desc-IsDescending c.id_of (rows_below p) (rows_below-IsDistinct p ids),
    order_desc-Perm c.id_of (rows_below p),
    follow_rows k n p (ordered p) refl limit more ids above,
  )
