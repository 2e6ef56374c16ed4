-- ===== src/Webstream/Block.antt =====
-- What a closed client of internal/webapp/tracker/webstream/webstream.go does to its callers.
use gpstracker_backend.Base.{
  ℕ, suc, ◌≡◌, refl, ap, ◌∙◌, true, false, List, [], ◌∷◌, ◌++◌, none, some, length, ◌==◌, arith,
  inl, inr, Bool-cases, lt→ltb,
}
use gpstracker_backend.Sublist.{Sublist, SublistMap, subscribe, get_sublist}
use gpstracker_backend.Webstream.{
  Client, too_many, push, pushed, handle_of, or_fresh, subscribed, close_err, add_sub, add_subs,
}

-- The first push to a closed client is told so; every later one never returns.
pub push_closed :
    (d d' : List ℕ) (wc : Client)
    → wc.locked ≡ false
    → wc.closed ≡ true
    → (push d wc ≡ some (record wc { locked = true }, true))
      × (push d' (record wc { locked = true }) ≡ none)
unfolding push
push_closed d d' wc l c = (rw (l, c) refl, refl)

-- Subscribing a closed client to a tracker that it does not have never returns, and then holds the
-- mutex of the tracker's subscribers for ever.
pub add_sub_closed :
    (me id : ℕ) (wc : Client) (m : SublistMap)
    → wc.closed ≡ true
    → handle_of id wc.subs ≡ none
    → add_sub me id wc m ≡ none
unfolding add_sub pushed push subscribed
add_sub_closed me id wc m c h =
    rw h (elim (Bool-cases wc.locked) [ inl l ↦ rw l refl | inr n ↦ rw (n, c) refl ])

abbrev new_handle : ℕ → SublistMap → Sublist
new_handle a m = or_fresh a (get_sublist a true m).1

-- What an open client becomes when it subscribes to one tracker more.
sixth :
    (me a : ℕ) (wc : Client) (m : SublistMap)
    → wc.locked ≡ false
    → wc.closed ≡ false
    → handle_of a wc.subs ≡ none
    → length wc.subs ≡ 5
    → (wc' : Client) × (m' : SublistMap) × (s : Sublist) × (add_sub me a wc m ≡ some (wc', m'))
      × (wc'.closed ≡ true)
      × (wc'.subs ≡ (a, s) ∷ wc.subs)
unfolding add_sub pushed push subscribed close_err
sixth me a wc m l c h n = (
  record wc {
    closed = true;
    reason = some too_many;
    buf = (wc.buf ++ (new_handle a m).location_data ∷ []) ++ (new_handle a m).event_data ∷ [];
    subs = (a, new_handle a m) ∷ wc.subs;
  },
  (subscribe me (new_handle a m) (get_sublist a true m).0).0,
  new_handle a m,
  rw (h, l, c, lt→ltb 5 (suc (length wc.subs)) (omega arith)) refl,
  refl,
  refl,
)

-- An open client that has five trackers and asks for two new ones in a message is closed at the
-- first, and at the second the call never returns.
pub add_subs_seventh :
    (me a b : ℕ) (wc : Client) (m : SublistMap)
    → wc.locked ≡ false
    → wc.closed ≡ false
    → length wc.subs ≡ 5
    → handle_of a wc.subs ≡ none
    → handle_of b wc.subs ≡ none
    → (a == b) ≡ false
    → add_subs me (a ∷ b ∷ []) (some (wc, m)) ≡ none
add_subs_seventh me a b wc m l c n ha hb ne =
    let (wc', m', s, step, shut, subs) = sixth me a wc m l c ha n in
    ap (add_subs me (b ∷ [])) step
    ∙ add_sub_closed me b wc' m' shut (ap (handle_of b) subs ∙ (rw ne hb))
