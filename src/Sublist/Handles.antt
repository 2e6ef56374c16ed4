-- ===== src/Sublist/Handles.antt =====
-- What `GetSublist` of internal/gpsv2/sublist/sublist.go returns, and what a map keeps.
use gpstracker_backend.Base.{
  ℕ, ◌≡◌, refl, ap, Bool, true, false, List, [], ◌∷◌, Option, none, some, ◌==◌, if◌then◌else◌, inl,
  inr, Bool-cases, ==_refl, All,
}
use gpstracker_backend.Sublist.{
  SublistMap, Sublist, lookup, subs_or, replace, found, get_sublist, member, delete, fresh_sublist,
  subscribe, unsubscribe, still_open, send,
}
use gpstracker_backend.Sublist.Members.{Distinct}

-- Every tracker's subscribers are distinct.
abbrev pub IsSound : SublistMap → Type 0
IsSound m = All (λ e. Distinct e.1) m.list

lookup-Distinct :
    (k : ℕ) (l : List (ℕ × List ℕ)) → All (λ e. Distinct e.1) l → Distinct (subs_or (lookup k l))
lookup-Distinct k [] h = tt
lookup-Distinct k ((j, v) ∷ rest) (d, h) = elim (Bool-cases (j == k)) [
  | inl y ↦ rw y d
  | inr n ↦ rw n (lookup-Distinct k rest h)
]

replace-Distinct :
    (k : ℕ) (subs : List ℕ) (l : List (ℕ × List ℕ))
    → Distinct subs
    → All (λ e. Distinct e.1) l
    → All (λ e. Distinct e.1) (replace k subs l)
replace-Distinct k subs [] d h = tt
replace-Distinct k subs ((j, v) ∷ rest) d (dv, h) = elim (Bool-cases (j == k)) [
  | inl y ↦ rw y (d, h)
  | inr n ↦ rw n (dv, replace-Distinct k subs rest d h)
]

add-Distinct : (x : ℕ) (xs : List ℕ) → Distinct xs → Distinct (if member x xs then xs else x ∷ xs)
add-Distinct x xs d = elim (Bool-cases (member x xs)) [ inl y ↦ rw y d | inr n ↦ rw n (n, d) ]

member-delete_other : (x y : ℕ) (ys : List ℕ) → member y ys ≡ false → member y (delete x ys) ≡ false
member-delete_other x y [] h = refl
member-delete_other x y (z ∷ zs) h = elim (Bool-cases (y == z)) [
  | inl e ↦ cc (rw e at h)
  | inr n ↦ elim (Bool-cases (x == z)) [
    | inl e ↦ rw e (rw n at h)
    | inr k ↦ rw (k, n) (member-delete_other x y zs (rw n at h))
  ]
]

delete-Distinct : (x : ℕ) (xs : List ℕ) → Distinct xs → Distinct (delete x xs)
delete-Distinct x [] d = tt
delete-Distinct x (y ∷ ys) (f, d) = elim (Bool-cases (x == y)) [
  | inl e ↦ rw e d
  | inr n ↦ rw n (member-delete_other x y ys f, delete-Distinct x ys d)
]

member-still_open_other :
    (closed : ℕ → Bool) (y : ℕ) (ys : List ℕ)
    → member y ys ≡ false
    → member y (still_open closed ys) ≡ false
member-still_open_other closed y [] h = refl
member-still_open_other closed y (z ∷ zs) h = elim (Bool-cases (y == z)) [
  | inl e ↦ cc (rw e at h)
  | inr n ↦ elim (Bool-cases (closed z)) [
    | inl c ↦ rw c (member-still_open_other closed y zs (rw n at h))
    | inr o ↦ rw (o, n) (member-still_open_other closed y zs (rw n at h))
  ]
]

still_open-Distinct :
    (closed : ℕ → Bool) (xs : List ℕ) → Distinct xs → Distinct (still_open closed xs)
still_open-Distinct closed [] d = tt
still_open-Distinct closed (y ∷ ys) (f, d) = elim (Bool-cases (closed y)) [
  | inl c ↦ rw c (still_open-Distinct closed ys d)
  | inr o ↦ rw o (member-still_open_other closed y ys f, still_open-Distinct closed ys d)
]

-- An operation on a map by its users.
pub data Action : Type 0 where
  getting : ℕ → Bool → Action
  subscribing unsubscribing : ℕ → Sublist → Action
  sending : ℕ → List ℕ → (ℕ → Bool) → Sublist → Action

abbrev pub act : Action → SublistMap → SublistMap
act (getting key create) m = (get_sublist key create m).0
act (subscribing x s) m = (subscribe x s m).0
act (unsubscribing x s) m = unsubscribe x s m
act (sending sender d closed s) m = (send sender d closed s m).0

-- Every operation keeps each tracker's subscribers distinct, so that nobody is pushed a message
-- twice.
pub act-IsSound : (a : Action) (m : SublistMap) → IsSound m → IsSound (act a m)
unfolding get_sublist subscribe unsubscribe send
act-IsSound (getting key create) m h = got (lookup key m.list) create
  where
    got : (o : Option (List ℕ)) (c : Bool) → IsSound (found o key c m).0
    got (some subs) c = h
    got none false = h
    got none true = (tt, h)
act-IsSound (subscribing x s) m h =
    replace-Distinct s.key _ m.list (add-Distinct x _ (lookup-Distinct s.key m.list h)) h
act-IsSound (unsubscribing x s) m h =
    replace-Distinct s.key _ m.list (delete-Distinct x _ (lookup-Distinct s.key m.list h)) h
act-IsSound (sending sender d closed s) m h =
    replace-Distinct s.key _ m.list (still_open-Distinct closed _ (lookup-Distinct s.key m.list h))
      h

-- `GetSublist` with `create` always returns a handle; its tracker is in the map afterwards, with
-- the subscribers that it had, or with none when it is new.
pub get_sublist-lookup :
    (key : ℕ) (m : SublistMap)
    → let (m', handle, present) = get_sublist key true m in
      (handle ≡ some (fresh_sublist key))
      × (present ≡ true)
      × (lookup key m'.list ≡ some (subs_or (lookup key m.list)))
unfolding get_sublist
get_sublist-lookup key m = got (lookup key m.list) refl
  where
    got :
        (o : Option (List ℕ))
        → lookup key m.list ≡ o
        → let (m', handle, present) = found o key true m in
          (handle ≡ some (fresh_sublist key))
          × (present ≡ true)
          × (lookup key m'.list ≡ some (subs_or o))
    got none e = (refl, refl, rw (==_refl key) refl)
    got (some subs) e = (refl, refl, e)

-- Whatever was sent before, a subscriber that comes through a handle of its own is first pushed the
-- single bytes 0 and 1: no handle from `GetSublist` has the last location or event.
pub subscribe-get_sublist :
    (sub key : ℕ) (create : Bool) (m : SublistMap) (s : Sublist)
    → (get_sublist key create m).1 ≡ some s
    → (subscribe sub s (get_sublist key create m).0).1
      ≡ (sub, key, 0 ∷ []) ∷ (sub, key, 1 ∷ []) ∷ []
unfolding get_sublist subscribe
subscribe-get_sublist sub key create m s h =
    ap (λ s'. (sub, s'.key, s'.location_data) ∷ (sub, s'.key, s'.event_data) ∷ [])
      (blank (lookup key m.list) create h)
  where
    blank : (o : Option (List ℕ)) (c : Bool) → (found o key c m).1 ≡ some s → s ≡ fresh_sublist key
    blank none false e = cc
    blank none true e = cc
    blank (some subs) c e = cc
