-- ===== src/Sublist/Members.antt =====
-- Who is pushed a message of internal/gpsv2/sublist/sublist.go.
use gpstracker_backend.Base.{
  ℕ, ◌≡◌, refl, ap, ◌∙◌, Bool, true, false, not, ◌&&◌, List, [], ◌∷◌, map, some, ◌==◌,
  if◌then◌else◌, inl, inr, Bool-cases, ==_iff, ==_refl,
}
use gpstracker_backend.Sublist.{
  SublistMap, Sublist, lookup, subs_or, replace, subs_of, with_subs, member, delete, Push,
  subscribe, unsubscribe, still_open, send,
}

-- Whether the pushes have one to `x`.
abbrev pub reaches : ℕ → List Push → Bool
reaches x [] = false
reaches x ((sub, sender, d) ∷ ps) = if x == sub then true else reaches x ps

-- No subscriber stands twice.
abbrev pub Distinct : List ℕ → Type 0
Distinct [] = Unit {0}
Distinct (x ∷ xs) = (member x xs ≡ false) × Distinct xs

lookup-replace :
    (k : ℕ) (old subs : List ℕ) (l : List (ℕ × List ℕ))
    → lookup k l ≡ some old
    → lookup k (replace k subs l) ≡ some subs
lookup-replace k old subs [] h = cc
lookup-replace k old subs ((j, v) ∷ rest) h = elim (Bool-cases (j == k)) [
  | inl y ↦ rw (y, y) refl
  | inr n ↦ rw (n, n) (lookup-replace k old subs rest (rw n at h))
]

lookup-replace_other :
    (i k : ℕ) (subs : List ℕ) (l : List (ℕ × List ℕ))
    → (k == i) ≡ false
    → lookup i (replace k subs l) ≡ lookup i l
lookup-replace_other i k subs [] h = refl
lookup-replace_other i k subs ((j, v) ∷ rest) h = elim (Bool-cases (j == k)) [
  | inl y ↦ rw (y, ap (λ z. z == i) ((==_iff j k).0 y) ∙ h) refl
  | inr n ↦ rw n (ap (λ r. if j == i then some v else r) (lookup-replace_other i k subs rest h))
]

subs_of-with_subs :
    (s s' : Sublist) (old subs : List ℕ) (m : SublistMap)
    → s'.key ≡ s.key
    → lookup s.key m.list ≡ some old
    → subs_of s' (with_subs s subs m) ≡ subs
subs_of-with_subs s s' old subs m k h =
    ap (λ i. subs_or (lookup i (replace s.key subs m.list))) k
    ∙ ap subs_or (lookup-replace s.key old subs m.list h)

reaches-map :
    (x sender : ℕ) (d : List ℕ) (subs : List ℕ)
    → reaches x (map (λ sub. (sub, sender, d)) subs) ≡ member x subs
reaches-map x sender d [] = refl
reaches-map x sender d (y ∷ ys) = ap (λ r. if x == y then true else r) (reaches-map x sender d ys)

member-add : (x : ℕ) (xs : List ℕ) → member x (if member x xs then xs else x ∷ xs) ≡ true
member-add x xs = elim (Bool-cases (member x xs)) [
  | inl y ↦ rw y y
  | inr n ↦ rw (n, ==_refl x) refl
]

member-delete : (x : ℕ) (xs : List ℕ) → Distinct xs → member x (delete x xs) ≡ false
member-delete x [] h = refl
member-delete x (y ∷ ys) (fresh, h) = elim (Bool-cases (x == y)) [
  | inl e ↦ rw e (ap (λ z. member z ys) ((==_iff x y).0 e) ∙ fresh)
  | inr n ↦ rw (n, n) (member-delete x ys h)
]

member-still_open :
    (closed : ℕ → Bool) (x : ℕ) (xs : List ℕ)
    → member x (still_open closed xs) ≡ (member x xs && not (closed x))
member-still_open closed x [] = refl
member-still_open closed x (y ∷ ys) = elim (Bool-cases (x == y)) [
  | inl e ↦ elim (Bool-cases (closed y)) [
    | inl c ↦
        rw (e, c, member-still_open closed x ys, ap closed ((==_iff x y).0 e), c)
          (none_left (member x ys))
    | inr o ↦ rw (o, e, ap closed ((==_iff x y).0 e), o) refl
  ]
  | inr n ↦ elim (Bool-cases (closed y)) [
    | inl c ↦ rw (n, c) (member-still_open closed x ys)
    | inr o ↦ rw (o, n) (member-still_open closed x ys)
  ]
]
  where
    none_left : (b : Bool) → (b && false) ≡ false
    none_left true = refl
    none_left false = refl

-- A subscriber that subscribed through one handle of a tracker in the map is pushed what is sent
-- through any handle of that tracker.
pub send-subscribe :
    (sub sender : ℕ) (d : List ℕ) (closed : ℕ → Bool) (s s' : Sublist) (m : SublistMap)
    (old : List ℕ)
    → s'.key ≡ s.key
    → lookup s.key m.list ≡ some old
    → reaches sub (send sender d closed s' (subscribe sub s m).0).1 ≡ true
unfolding send subscribe
send-subscribe sub sender d closed s s' m old k h =
    reaches-map sub sender d (subs_of s' (with_subs s added m))
    ∙ ap (member sub) (subs_of-with_subs s s' old added m k h)
    ∙ member-add sub (subs_of s m)
  where
    added : List ℕ
    added = if member sub (subs_of s m) then subs_of s m else sub ∷ subs_of s m

-- A subscriber that left a tracker in the map, whose subscribers are distinct, is not pushed what is
-- sent through any handle of that tracker.
pub send-unsubscribe :
    (sub sender : ℕ) (d : List ℕ) (closed : ℕ → Bool) (s s' : Sublist) (m : SublistMap)
    (old : List ℕ)
    → s'.key ≡ s.key
    → lookup s.key m.list ≡ some old
    → Distinct old
    → reaches sub (send sender d closed s' (unsubscribe sub s m)).1 ≡ false
unfolding send unsubscribe
send-unsubscribe sub sender d closed s s' m old k h u =
    reaches-map sub sender d (subs_of s' (with_subs s (delete sub (subs_of s m)) m))
    ∙ ap (member sub) (subs_of-with_subs s s' old (delete sub (subs_of s m)) m k h)
    ∙ ap (λ o. member sub (delete sub (subs_or o))) h
    ∙ member-delete sub old u

-- A message to a tracker in the map goes to exactly the subscribers there are, and the next one to
-- exactly those of them that the first did not find closed.
pub send-send :
    (x sender sender' : ℕ) (d d' : List ℕ) (closed closed' : ℕ → Bool) (s : Sublist)
    (m : SublistMap) (old : List ℕ)
    → lookup s.key m.list ≡ some old
    → let (m', pushes) = send sender d closed s m in
      (reaches x pushes ≡ member x old)
      × (reaches x (send sender' d' closed' s m').1 ≡ (member x old && not (closed x)))
unfolding send
send-send x sender sender' d d' closed closed' s m old h = (
  reaches-map x sender d (subs_of s m) ∙ ap (λ o. member x (subs_or o)) h,
  reaches-map x sender' d' (subs_of s (with_subs s (still_open closed (subs_of s m)) m))
      ∙ ap (member x) (subs_of-with_subs s s old (still_open closed (subs_of s m)) m refl h)
      ∙ ap (λ o. member x (still_open closed (subs_or o))) h
      ∙ member-still_open closed x old,
)

-- Subscribing, unsubscribing and sending leave the subscribers of every other tracker alone.
pub others_unchanged :
    (x sender i : ℕ) (d : List ℕ) (closed : ℕ → Bool) (s : Sublist) (m : SublistMap)
    → (s.key == i) ≡ false
    → (lookup i (subscribe x s m).0.list ≡ lookup i m.list)
      × (lookup i (unsubscribe x s m).list ≡ lookup i m.list)
      × (lookup i (send sender d closed s m).0.list ≡ lookup i m.list)
unfolding subscribe unsubscribe send
others_unchanged x sender i d closed s m h = (
  lookup-replace_other i s.key _ m.list h,
  lookup-replace_other i s.key _ m.list h,
  lookup-replace_other i s.key _ m.list h,
)
