-- ===== src/Webstream/Buffer.antt =====
-- What waits for a browser in internal/webapp/tracker/webstream/webstream.go reaches it in order.
use gpstracker_backend.Base.{
  ℕ, zero, suc, ◌<◌, ◌≡◌, refl, sym, ap, ◌∙◌, Bool, true, false, List, [], ◌∷◌, ◌++◌, Option, none,
  some, length, take, arith,
}
use gpstracker_backend.Base.Go.{write_failed}
use gpstracker_backend.Webstream.{Client, failed, push, close_err, written, flush}

-- Pushes of other goroutines, one after the other.
abbrev then_push : Option (Client × Bool) → (Client → Option Client) → Option Client
then_push none k = none
then_push (some (wc, closed)) k = k wc

abbrev pub push_all : List (List ℕ) → Client → Option Client
push_all [] wc = some wc
push_all (d ∷ ds) wc = then_push (push d wc) (push_all ds)

append_assoc : (xs ys zs : List (List ℕ)) → (xs ++ ys) ++ zs ≡ xs ++ (ys ++ zs)
append_assoc [] ys zs = refl
append_assoc (x ∷ xs) ys zs = ap (λ t. x ∷ t) (append_assoc xs ys zs)

append_nil : (xs : List (List ℕ)) → xs ++ [] ≡ xs
append_nil [] = refl
append_nil (x ∷ xs) = ap (λ t. x ∷ t) (append_nil xs)

push_open :
    (d : List ℕ) (wc : Client)
    → wc.locked ≡ false
    → wc.closed ≡ false
    → push d wc ≡ some (record wc { buf = wc.buf ++ d ∷ [] }, false)
unfolding push
push_open d wc l c = rw (l, c) refl

push_all_open :
    (ds : List (List ℕ)) (wc : Client)
    → wc.locked ≡ false
    → wc.closed ≡ false
    → push_all ds wc ≡ some (record wc { buf = wc.buf ++ ds })
push_all_open [] wc l c = sym (λ i. some (record wc { buf = append_nil wc.buf i }))
push_all_open (d ∷ ds) wc l c =
    ap (λ r. then_push r (push_all ds)) (push_open d wc l c)
    ∙ push_all_open ds (record wc { buf = wc.buf ++ d ∷ [] }) l c
    ∙ (λ i. some (record wc { buf = append_assoc wc.buf (d ∷ []) ds i }))

written_all : (ds : List (List ℕ)) → written ds none ≡ (ds, true)
written_all [] = refl
written_all (d ∷ ds) = ap (λ w. (d ∷ w.0, w.1)) (written_all ds)

written_upto :
    (ds : List (List ℕ)) (k : ℕ) → k < length ds → written ds (some k) ≡ (take k ds, false)
written_upto [] k h = absurd (omega arith)
written_upto (d ∷ ds) zero h = refl
written_upto (d ∷ ds) (suc k) h = ap (λ w. (d ∷ w.0, w.1)) (written_upto ds k (omega arith))

-- Messages that are pushed to an open client are all taken; the next flush writes what waited
-- before and then them, in order, and leaves the buffer empty.
pub flush-push_all :
    (ds : List (List ℕ)) (wc : Client)
    → wc.locked ≡ false
    → wc.closed ≡ false
    → (wc' : Client) × (push_all ds wc ≡ some wc')
      × (flush none wc' ≡ (record wc { buf = [] }, wc.buf ++ ds, true))
unfolding flush
flush-push_all ds wc l c = (
  record wc { buf = wc.buf ++ ds },
  push_all_open ds wc l c,
  rw (written_all (wc.buf ++ ds)) refl,
)

-- When the write number `k` of a flush fails, exactly the messages before it are written, the
-- client is closed and the loop ends.
pub flush_fails :
    (k : ℕ) (wc : Client)
    → k < length wc.buf
    → flush (some k) wc ≡ (close_err (failed write_failed) wc, take k wc.buf, false)
unfolding flush
flush_fails k wc h = rw (written_upto wc.buf k h) refl
