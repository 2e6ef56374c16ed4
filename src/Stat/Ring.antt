-- ===== src/Stat/Ring.antt =====
-- The ring of internal/gps/stat/stat.go against the history of what was logged.
use gpstracker_backend.Base.{
  ℕ, zero, suc, ◌+◌, ◌-◌, ◌%◌, ◌≤◌, ◌<◌, ◌≡◌, ◌⊎◌, refl, sym, ap, ◌∙◌, Bool, true, false, List, [],
  ◌∷◌, ◌++◌, length, get_or, take, drop, replicate, ◌==◌, if◌then◌else◌, inl, inr, arith, All,
  dec_lt, length-append, take-append, drop-append, set-append, get_or-append_right,
}
use gpstracker_backend.Stat.{TimeEvent, new_time_event, get_as_list, get_last_event, log}

module _ {T : Type 0} where
  append_assoc : (xs ys zs : List T) → (xs ++ ys) ++ zs ≡ xs ++ (ys ++ zs)
  append_assoc [] ys zs = refl
  append_assoc (x ∷ xs) ys zs = ap (λ t. x ∷ t) (append_assoc xs ys zs)

  append_nil : (xs : List T) → xs ++ [] ≡ xs
  append_nil [] = refl
  append_nil (x ∷ xs) = ap (λ t. x ∷ t) (append_nil xs)

  take_upto : (n : ℕ) (xs ys : List T) → n ≤ length xs → take n (xs ++ ys) ≡ take n xs
  take_upto zero xs ys h = refl
  take_upto (suc n) [] ys h = absurd (omega arith)
  take_upto (suc n) (x ∷ xs) ys h = ap (λ t. x ∷ t) (take_upto n xs ys (omega arith))

  take_all : (n : ℕ) (xs : List T) → length xs ≤ n → take n xs ≡ xs
  take_all zero [] h = refl
  take_all (suc n) [] h = refl
  take_all zero (x ∷ xs) h = absurd (omega arith)
  take_all (suc n) (x ∷ xs) h = ap (λ t. x ∷ t) (take_all n xs (omega arith))

  take-take : (m n : ℕ) (xs : List T) → m ≤ n → take m (take n xs) ≡ take m xs
  take-take zero n xs h = refl
  take-take (suc m) zero xs h = absurd (omega arith)
  take-take (suc m) (suc n) [] h = refl
  take-take (suc m) (suc n) (x ∷ xs) h = ap (λ t. x ∷ t) (take-take m n xs (omega arith))

  get_or-take : (n i : ℕ) (xs : List T) (d : T) → i < n → get_or (take n xs) i d ≡ get_or xs i d
  get_or-take zero i xs d h = absurd (omega arith)
  get_or-take (suc n) i [] d h = refl
  get_or-take (suc n) zero (x ∷ xs) d h = refl
  get_or-take (suc n) (suc i) (x ∷ xs) d h = get_or-take n i xs d (omega arith)

  -- Behind a list, copies of the default read as the default.
  get_or-replicate :
      (xs : List T) (n i : ℕ) (d : T) → get_or (xs ++ replicate n d) i d ≡ get_or xs i d
  get_or-replicate [] zero i d = refl
  get_or-replicate [] (suc n) zero d = refl
  get_or-replicate [] (suc n) (suc i) d = get_or-replicate [] n i d
  get_or-replicate (x ∷ xs) n zero d = refl
  get_or-replicate (x ∷ xs) n (suc i) d = get_or-replicate xs n i d

  get_or_past : (xs : List T) (i : ℕ) (d : T) → length xs ≤ i → get_or xs i d ≡ d
  get_or_past [] i d h = refl
  get_or_past (x ∷ xs) zero d h = absurd (omega arith)
  get_or_past (x ∷ xs) (suc i) d h = get_or_past xs i d (omega arith)

  -- A list is empty or has a last element.
  last_of : (a : List T) → (a ≡ []) ⊎ ((i : List T) × (y : T) × (a ≡ i ++ y ∷ []))
  last_of [] = inl refl
  last_of (x ∷ a) = elim (last_of a) [
    | inl e ↦ inr ([], x, ap (λ t. x ∷ t) e)
    | inr (i, y, e) ↦ inr (x ∷ i, y, ap (λ t. x ∷ t) e)
  ]

module _ {T : Type 0} (no_time : T) where
  -- The ring holds the history `h`, newest first: its cells are `a`, the cell that is written
  -- next and `b`, and from the index on they are the newest ten of `h`, or zero times.
  abbrev pub Holds : TimeEvent T → List T → Type 0
  Holds e h =
      (a : List T) × (b : List T) × (x : T) × (e ≡ record { list = a ++ x ∷ b; idx = length a })
      × (length a + length b ≡ 9)
      × (length a ≡ 9 - length h % 10)
      × (b ++ (a ++ x ∷ []) ≡ take 10 (h ++ replicate 10 no_time))

  pub new_time_event-Holds : Holds (new_time_event no_time) []
  unfolding new_time_event
  new_time_event-Holds = (replicate 9 no_time, [], no_time, refl, refl, refl, refl)

  newest_nine :
      (a b zs : List T) (x : T)
      → length a + length b ≡ 9
      → b ++ (a ++ x ∷ []) ≡ take 10 zs
      → b ++ a ≡ take 9 zs
  newest_nine a b zs x n e =
      sym (take-append 9 (b ++ a) (x ∷ []) (omega (arith, length-append b a)))
      ∙ ap (take 9) (append_assoc b a (x ∷ []) ∙ e)
      ∙ take-take 9 10 zs (omega arith)

  written :
      (a b : List T) (x t : T) (k : ℕ)
      → (if length a == 0 then length (a ++ x ∷ b) - 1 else length a - 1) ≡ k
      → log (record { list = a ++ x ∷ b; idx = length a }) t ≡ record { list = a ++ t ∷ b; idx = k }
  unfolding log
  written a b x t k e = λ i. record { list = set-append (length a) a b x t refl i; idx = e i }

  -- The first cell is written: the index goes to the last one.
  wrap-Holds :
      (b h : List T) (x t : T)
      → length b ≡ 9
      → 0 ≡ 9 - length h % 10
      → b ++ x ∷ [] ≡ take 10 (h ++ replicate 10 no_time)
      → Holds (record { list = t ∷ b; idx = 9 }) (t ∷ h)
  wrap-Holds b h x t n k e = elim (last_of (t ∷ b)) [
    | inl none_left ↦ absurd (omega (arith, ap length none_left))
    | inr (i, y, c) ↦
        let nine : 9 ≡ length i = omega (arith, ap length c, length-append i (y ∷ [])) in
        (
          i,
          [],
          y,
          (λ j. record { list = c j; idx = nine j }),
          omega arith,
          omega arith,
          sym c ∙ ap (λ r. t ∷ r) (sym (append_nil b) ∙ newest_nine [] b _ x (omega arith) e),
        )
  ]

  -- Another cell is written: the index goes down by one.
  down-Holds :
      (i b h : List T) (x y t : T)
      → length (i ++ y ∷ []) + length b ≡ 9
      → length (i ++ y ∷ []) ≡ 9 - length h % 10
      → b ++ ((i ++ y ∷ []) ++ x ∷ []) ≡ take 10 (h ++ replicate 10 no_time)
      → Holds (record { list = (i ++ y ∷ []) ++ t ∷ b; idx = length i }) (t ∷ h)
  down-Holds i b h x y t n k e = (
    i,
    t ∷ b,
    y,
    (λ j. record { list = append_assoc i (y ∷ []) (t ∷ b) j; idx = length i }),
    omega (arith, length-append i (y ∷ [])),
    omega (arith, length-append i (y ∷ [])),
    ap (λ r. t ∷ r) (newest_nine (i ++ y ∷ []) b _ x n e),
  )

  -- What is logged becomes the newest of the history.
  pub log-Holds : (e : TimeEvent T) (h : List T) (t : T) → Holds e h → Holds (log e t) (t ∷ h)
  log-Holds e h t (a, b, x, same, n, k, v) = rw same (elim (last_of a) [
    | inl empty ↦
        rw (empty, written [] b x t 9 (ground (arith, rw empty at n)))
          (wrap-Holds b h x t (omega (arith, rw empty at n)) (rw empty at k) (rw empty at v))
    | inr (i, y, c) ↦
        rw (c, written (i ++ y ∷ []) b x t (length i) (shorter i y b x))
          (down-Holds i b h x y t (rw c at n) (rw c at k) (rw c at v))
  ])
    where
      shorter :
          (i : List T) (y : T) (b : List T) (x : T)
          → (if length (i ++ y ∷ []) == 0
              then length ((i ++ y ∷ []) ++ x ∷ b) - 1
              else length (i ++ y ∷ []) - 1)
            ≡ length i
      shorter i y b x = ground (arith, length-append i (y ∷ []))

module _ {T : Type 0} (no_time : T) where
  -- The element of the view at a place is the one of the history, or zero.
  cell_of :
      (zs v : List T) (i : ℕ)
      → v ≡ take 10 (zs ++ replicate 10 no_time)
      → i < 10
      → get_or v i no_time ≡ get_or zs i no_time
  cell_of zs v i e h =
      ap (λ r. get_or r i no_time) e
      ∙ get_or-take 10 i (zs ++ replicate 10 no_time) no_time h
      ∙ get_or-replicate zs 10 i no_time

  oldest_cell :
      (a b h : List T) (x : T)
      → length a + length b ≡ 9
      → b ++ (a ++ x ∷ []) ≡ take 10 (h ++ replicate 10 no_time)
      → x ≡ get_or h 9 no_time
  oldest_cell a b h x n e =
      sym (get_or-append_right a (x ∷ []) (length a) 0 no_time (omega arith))
      ∙ sym (get_or-append_right b (a ++ x ∷ []) 9 (length a) no_time (omega arith))
      ∙ cell_of h (b ++ (a ++ x ∷ [])) 9 e (omega arith)

  first_cell :
      (a b : List T) (x : T)
      → (if length a == length (a ++ x ∷ b) - 1
          then get_or (a ++ x ∷ b) 0 no_time
          else get_or (a ++ x ∷ b) (length a + 1) no_time)
        ≡ get_or (b ++ (a ++ x ∷ [])) 0 no_time
  first_cell a [] x = ground (arith, length-append a (x ∷ []))
  first_cell a (z ∷ b) x = ground (
    arith,
    length-append a (x ∷ z ∷ b),
    get_or-append_right a (x ∷ z ∷ b) (length a + 1) 1 no_time refl,
  )

  -- `getLastEvent` is the newest event, and the zero time before the first.
  pub get_last_event-Holds :
      (e : TimeEvent T) (h : List T)
      → Holds no_time e h
      → get_last_event no_time e ≡ get_or h 0 no_time
  unfolding get_last_event
  get_last_event-Holds e h (a, b, x, same, n, k, v) =
      rw same (first_cell a b x ∙ cell_of h (b ++ (a ++ x ∷ [])) 0 v (omega arith))

module _ {T : Type 0} (no_time : T) (is_zero : T → Bool) where
  get_as_list_parted :
      (a b : List T) (x : T)
      → get_as_list no_time is_zero (record { list = a ++ x ∷ b; idx = length a })
        ≡ b ++ (if is_zero x then [] else a ++ x ∷ [])
  unfolding get_as_list
  get_as_list_parted a b x = λ i.
      behind i
      ++ (if is_zero (get_or-append_right a (x ∷ b) (length a) 0 no_time (omega arith) i)
          then []
          else upto i)
    where
      same : (a ++ x ∷ []) ++ b ≡ a ++ x ∷ b
      same = append_assoc a (x ∷ []) b

      one_more : length (a ++ x ∷ []) ≡ length a + 1
      one_more = omega (arith, length-append a (x ∷ []))

      behind : drop (length a + 1) (a ++ x ∷ b) ≡ b
      behind =
          ap (drop (length a + 1)) (sym same) ∙ drop-append (length a + 1) (a ++ x ∷ []) b one_more

      upto : take (length a + 1) (a ++ x ∷ b) ≡ a ++ x ∷ []
      upto =
          ap (take (length a + 1)) (sym same) ∙ take-append (length a + 1) (a ++ x ∷ []) b one_more

  All-get_or :
      (h : List T) (i : ℕ)
      → All (λ t. is_zero t ≡ false) h
      → i < length h
      → is_zero (get_or h i no_time) ≡ false
  All-get_or [] i p l = absurd (omega arith)
  All-get_or (x ∷ h) zero (p, ps) l = p
  All-get_or (x ∷ h) (suc i) (p, ps) l = All-get_or h i ps (omega arith)

  -- `getAsList` is the newest ten events, newest first, when no event is the zero time.
  pub get_as_list-Holds :
      (e : TimeEvent T) (h : List T)
      → is_zero no_time ≡ true
      → All (λ t. is_zero t ≡ false) h
      → Holds no_time e h
      → get_as_list no_time is_zero e ≡ take 10 h
  get_as_list-Holds e h z p (a, b, x, same, n, k, v) = rw same (
      get_as_list_parted a b x ∙ elim (dec_lt (length h) 10) [
        | yes few ↦ rw (ap is_zero (oldest ∙ get_or_past h 9 no_time (omega arith)) ∙ z) (
            append_nil b
            ∙ sym (take-append (length h) b (a ++ x ∷ []) (omega arith))
            ∙ ap (take (length h)) v
            ∙ take-take (length h) 10 (h ++ replicate 10 no_time) (omega arith)
            ∙ take-append (length h) h (replicate 10 no_time) refl
            ∙ sym (take_all 10 h (omega arith)))
        | no many ↦
            rw (ap is_zero oldest ∙ All-get_or h 9 p (omega arith))
              (v ∙ take_upto 10 h (replicate 10 no_time) (omega arith))
      ])
    where
      oldest : x ≡ get_or h 9 no_time
      oldest = oldest_cell no_time a b h x n v
