-- ===== src/Web/Tracker/Paging/Order.antt =====
-- What `ORDER BY` does to the rows of a table whose keys are distinct.
use gpstracker_backend.Base.{
  ℕ, ◌<◌, ◌≡◌, ◌≢◌, refl, sym, ap, ◌∙◌, Bool, true, false, if◌then◌else◌, List, [], ◌∷◌, All, ltb,
  arith, inl, inr, Bool-cases, lt→ltb, le→ltb, ltb→lt,
}
use mathlib.Core.List.{Perm}
use mathlib.Core.List.Perm
use gpstracker_backend.Web.Tracker.Paging.{where_rows, insert_desc, order_desc}

larger : (m n : ℕ) → ltb m n ≡ false → n ≢ m → n < m
larger m n h e = ground arith

module _ {A : Type 0} (key : A → ℕ) where
  -- Each row has a smaller key than the one before.
  abbrev pub IsDescending : List A → Type 0
  IsDescending [] = Unit {0}
  IsDescending (x ∷ xs) = All (λ y. key y < key x) xs × IsDescending xs

  abbrev pub below : ℕ → A → Bool
  below p x = ltb (key x) p

  -- No two rows have the same key.
  abbrev pub IsDistinct : List A → Type 0
  IsDistinct [] = Unit {0}
  IsDistinct (x ∷ xs) = All (λ y. key y ≢ key x) xs × IsDistinct xs

  insert_desc_front :
      (x : A) (xs : List A) → All (λ y. key y < key x) xs → insert_desc key x xs ≡ x ∷ xs
  insert_desc_front x [] h = refl
  insert_desc_front x (y ∷ ys) (h, rest) = rw (le→ltb (key x) (key y) (omega (arith, h))) refl

  All-insert {κ} :
      (P : A → Type κ) (x : A) (xs : List A) → P x → All P xs → All P (insert_desc key x xs)
  All-insert P x [] p h = (p, h)
  All-insert P x (y ∷ ys) p (h, rest) = elim (Bool-cases (ltb (key x) (key y))) [
    | inl l ↦ rw l (h, All-insert P x ys p rest)
    | inr n ↦ rw n (p, (h, rest))
  ]

  pub All-order {κ} : (P : A → Type κ) (xs : List A) → All P xs → All P (order_desc key xs)
  All-order P [] h = h
  All-order P (x ∷ xs) (h, rest) = All-insert P x (order_desc key xs) h (All-order P xs rest)

  -- What is below a row is below any row that is above that one.
  All-below : (m n : ℕ) (xs : List A) → m < n → All (λ y. key y < m) xs → All (λ y. key y < n) xs
  All-below m n [] h a = a
  All-below m n (x ∷ xs) h (a, rest) = (omega (arith, h, a), All-below m n xs h rest)

  insert-IsDescending :
      (x : A) (xs : List A)
      → All (λ y. key y ≢ key x) xs
      → IsDescending xs
      → IsDescending (insert_desc key x xs)
  insert-IsDescending x [] n h = (tt, tt)
  insert-IsDescending x (y ∷ ys) (n, more) (h, rest) = elim (Bool-cases (ltb (key x) (key y))) [
    | inl l ↦ rw l (
      All-insert (λ z. key z < key y) x ys (ltb→lt (key x) (key y) l) h,
      insert-IsDescending x ys more rest,
    )
    | inr g ↦
        let less : key y < key x = larger (key x) (key y) g n in
        rw g ((less, All-below (key y) (key x) ys less h), (h, rest))
  ]

  pub order_desc-IsDescending : (xs : List A) → IsDistinct xs → IsDescending (order_desc key xs)
  order_desc-IsDescending [] h = tt
  order_desc-IsDescending (x ∷ xs) (n, h) =
      insert-IsDescending x (order_desc key xs) (All-order (λ y. key y ≢ key x) xs n)
        (order_desc-IsDescending xs h)

  -- The ordered rows are the rows, in some order.
  insert_desc-Perm : (x : A) (xs : List A) → Perm (x ∷ xs) (insert_desc key x xs)
  insert_desc-Perm x [] = Perm.refl (x ∷ [])
  insert_desc-Perm x (y ∷ ys) = elim (Bool-cases (ltb (key x) (key y))) [
    | inl l ↦ rw l (Perm.trans (Perm.swap y x ys) (Perm.cons y (insert_desc-Perm x ys)))
    | inr g ↦ rw g (Perm.refl (x ∷ y ∷ ys))
  ]

  pub order_desc-Perm : (xs : List A) → Perm xs (order_desc key xs)
  order_desc-Perm [] = Perm.refl []
  order_desc-Perm (x ∷ xs) =
      Perm.trans (Perm.cons x (order_desc-Perm xs)) (insert_desc-Perm x (order_desc key xs))

  pub All-where {κ} :
      (P : A → Type κ) (p : A → Bool) (xs : List A) → All P xs → All P (where_rows p xs)
  All-where P p [] h = h
  All-where P p (x ∷ xs) (h, rest) = elim (Bool-cases (p x)) [
    | inl y ↦ rw y (h, All-where P p xs rest)
    | inr n ↦ rw n (All-where P p xs rest)
  ]

  pub where-IsDistinct : (p : A → Bool) (xs : List A) → IsDistinct xs → IsDistinct (where_rows p xs)
  where-IsDistinct p [] h = h
  where-IsDistinct p (x ∷ xs) (h, rest) = elim (Bool-cases (p x)) [
    | inl y ↦ rw y (All-where (λ z. key z ≢ key x) p xs h, where-IsDistinct p xs rest)
    | inr n ↦ rw n (where-IsDistinct p xs rest)
  ]

  pub where-All : (p : ℕ) (xs : List A) → All (λ y. key y < p) xs → where_rows (below p) xs ≡ xs
  where-All p [] h = refl
  where-All p (x ∷ xs) (h, rest) = rw (lt→ltb (key x) p h) (ap (λ t. x ∷ t) (where-All p xs rest))

  -- A row is put at its place before or after the rows that are too high are taken out.
  where_insert :
      (l : ℕ) (x : A) (xs : List A)
      → All (λ y. key y ≢ key x) xs
      → IsDescending xs
      → where_rows (below l) (insert_desc key x xs) ≡ (
          if below l x
          then insert_desc key x (where_rows (below l) xs)
          else where_rows (below l) xs)
  where_insert l x [] n h = refl
  where_insert l x (y ∷ ys) (n, more) (h, rest) = elim (Bool-cases (ltb (key x) (key y))) [
    | inl small ↦ rw small (elim (Bool-cases (below l y)) [
      | inl low ↦
          let less = ltb→lt (key x) (key y) small in
          let lower : below l x ≡ true =
            lt→ltb (key x) l (omega (arith, less, ltb→lt (key y) l low)) in
          rw (low, lower)
            (rw small
              (ap (λ t. y ∷ t) (where_insert l x ys more rest ∙ chosen (below l x) lower ys)))
      | inr high ↦ rw high (where_insert l x ys more rest)
    ])
    | inr large ↦ rw large (elim (Bool-cases (below l x)) [
      | inr high ↦ rw high refl
      | inl low ↦
          let less = larger (key x) (key y) large n in
          let all : All (λ z. key z < key x) (y ∷ ys) =
            (less, All-below (key y) (key x) ys less h) in
          let kept : where_rows (below l) (y ∷ ys) ≡ y ∷ ys =
            where-All l (y ∷ ys) (All-below (key x) l (y ∷ ys) (ltb→lt (key x) l low) all) in
          rw low (
            ap (λ t. x ∷ t) kept
            ∙ sym (insert_desc_front x (y ∷ ys) all)
            ∙ ap (insert_desc key x) (sym kept))
    ])
  ]
    where
      chosen :
          (b : Bool)
          → b ≡ true
          → (ys : List A)
          → (if b then insert_desc key x (where_rows (below l) ys) else where_rows (below l) ys)
            ≡ insert_desc key x (where_rows (below l) ys)
      chosen true e ys = refl
      chosen false e ys = cc

  pub where_order :
      (l : ℕ) (xs : List A)
      → IsDistinct xs
      → where_rows (below l) (order_desc key xs) ≡ order_desc key (where_rows (below l) xs)
  where_order l [] h = refl
  where_order l (x ∷ xs) (n, h) =
      where_insert l x (order_desc key xs) (All-order (λ y. key y ≢ key x) xs n)
        (order_desc-IsDescending xs h)
      ∙ elim (Bool-cases (below l x)) [
        | inl y ↦ rw y (ap (insert_desc key x) (where_order l xs h))
        | inr k ↦ rw k (where_order l xs h)
      ]
