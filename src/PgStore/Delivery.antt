-- ===== src/PgStore/Delivery.antt =====
-- Which flushed buffers `handle` of pgstore.go saves.
use gpstracker_backend.Base.{
  ℕ, ◌≡◌, ◌⊎◌, refl, ap, Bool, true, false, List, [], ◌∷◌, ◌++◌, length, ◌==◌, ltb, not, ◌&&◌, ◌-◌,
  inl, inr, arith, Bool-cases,
}
use gpstracker_backend.PgStore.{
  StoreConfig, PgStore, Buffer, Handler, starting, waiting, woken, copying, new_store, flush,
  append_record, put_record, tick, resume, finish, done, wake, signal, Event, put_event, tick_event,
  resume_event, finish_event, step, run,
}

-- `xs` is `ys` without some of its elements.
abbrev pub Subsequence {ℓ} : {A : Type ℓ} → List A → List A → Type ℓ
Subsequence xs [] = xs ≡ []
Subsequence {A = A} xs (y ∷ ys) =
    Subsequence xs ys ⊎ ((zs : List A) × (xs ≡ y ∷ zs) × Subsequence zs ys)

module _ {ℓ} {A : Type ℓ} where
  tail : List A → List A
  tail [] = []
  tail (x ∷ xs) = xs

  Subsequence-tail : (x : A) (xs ys : List A) → Subsequence (x ∷ xs) ys → Subsequence xs ys
  unfolding tail
  Subsequence-tail x xs [] e = absurd (omega (arith, ap length e))
  Subsequence-tail x xs (y ∷ ys) (inl s) = inl (Subsequence-tail x xs ys s)
  Subsequence-tail x xs (y ∷ ys) (inr (zs, e, s)) = inl (rw (ap tail e) s)

module _ {R : Type 0} where
  -- What is saved, and what is on its way to be, is part of what was flushed before.
  abbrev OnTheWay : Handler R → Buffer R → List (Buffer R) → List (Buffer R) → Type 0
  OnTheWay starting rbuf saved flushed = Subsequence saved flushed
  OnTheWay waiting rbuf saved flushed = Subsequence saved flushed
  OnTheWay woken rbuf saved flushed =
      (earlier : List (Buffer R)) × (flushed ≡ rbuf ∷ earlier) × Subsequence saved earlier
  OnTheWay (copying b) rbuf saved flushed = Subsequence (b ∷ saved) flushed

  abbrev IsDelivering : PgStore R → Type 0
  IsDelivering st = OnTheWay st.handler st.rbuf st.saved st.flushed

  signal-OnTheWay :
      (h : Handler R) (b rbuf : Buffer R) (saved flushed : List (Buffer R))
      → OnTheWay h rbuf saved flushed
      → OnTheWay (signal h) b saved (b ∷ flushed)
  signal-OnTheWay starting b rbuf saved flushed s = inl s
  signal-OnTheWay waiting b rbuf saved flushed s = (flushed, refl, s)
  signal-OnTheWay woken b rbuf saved flushed (earlier, e, s) = (flushed, refl, rw e (inl s))
  signal-OnTheWay (copying c) b rbuf saved flushed s = inl s

  flush-IsDelivering : (st : PgStore R) (now : ℕ) → IsDelivering st → IsDelivering (flush st now)
  unfolding flush
  flush-IsDelivering st now h = signal-OnTheWay st.handler _ st.rbuf st.saved st.flushed h

  put_record-IsDelivering :
      (st : PgStore R) (r : R) (now : ℕ) → IsDelivering st → IsDelivering (put_record st r now)
  unfolding put_record
  put_record-IsDelivering st r now h =
      elim (Bool-cases (length (st.wbuf.buf ++ r ∷ []) == st.config.buf_size)) [
        | inl y ↦ rw y (flush-IsDelivering (append_record st r now) now h)
        | inr n ↦ rw n h
      ]

  tick-IsDelivering : (st : PgStore R) (t : ℕ) → IsDelivering st → IsDelivering (tick st t)
  unfolding tick
  tick-IsDelivering st t h =
      elim (Bool-cases
        (not (length st.wbuf.buf == 0) && ltb st.config.max_age_flush (t - st.wbuf.t1))) [
          | inl y ↦ rw y (flush-IsDelivering st t h)
          | inr n ↦ rw n h
        ]

  resume-IsDelivering : (st : PgStore R) → IsDelivering st → IsDelivering (resume st)
  unfolding resume
  resume-IsDelivering st h = woken_to_copying st.handler st.rbuf st.saved st.flushed h
    where
      woken_to_copying :
          (k : Handler R) (rbuf : Buffer R) (saved flushed : List (Buffer R))
          → OnTheWay k rbuf saved flushed
          → OnTheWay (wake k rbuf) rbuf saved flushed
      woken_to_copying starting rbuf saved flushed s = s
      woken_to_copying waiting rbuf saved flushed s = s
      woken_to_copying woken rbuf saved flushed (earlier, e, s) = rw e (inr (saved, refl, s))
      woken_to_copying (copying b) rbuf saved flushed s = s

  finish-IsDelivering :
      (st : PgStore R) (good : Bool) → IsDelivering st → IsDelivering (finish st good)
  unfolding finish
  finish-IsDelivering st good h = copied st.handler good refl
    where
      copied : (k : Handler R) (g : Bool) → st.handler ≡ k → IsDelivering (done st k g)
      copied starting g e = h
      copied waiting g e = h
      copied woken g e = h
      copied (copying b) true e = rw e at h
      copied (copying b) false e = Subsequence-tail b st.saved st.flushed (rw e at h)

  run-IsDelivering :
      (st : PgStore R) (es : List (Event R)) → IsDelivering st → IsDelivering (run st es)
  unfolding run step
  run-IsDelivering st [] h = h
  run-IsDelivering st (put_event r now ∷ es) h =
      run-IsDelivering (put_record st r now) es (put_record-IsDelivering st r now h)
  run-IsDelivering st (tick_event t ∷ es) h =
      run-IsDelivering (tick st t) es (tick-IsDelivering st t h)
  run-IsDelivering st (resume_event ∷ es) h =
      run-IsDelivering (resume st) es (resume-IsDelivering st h)
  run-IsDelivering st (finish_event good ∷ es) h =
      run-IsDelivering (finish st good) es (finish-IsDelivering st good h)

  OnTheWay-Subsequence :
      (k : Handler R) (rbuf : Buffer R) (saved flushed : List (Buffer R))
      → OnTheWay k rbuf saved flushed
      → Subsequence saved flushed
  OnTheWay-Subsequence starting rbuf saved flushed s = s
  OnTheWay-Subsequence waiting rbuf saved flushed s = s
  OnTheWay-Subsequence woken rbuf saved flushed (earlier, e, s) = rw e (inl s)
  OnTheWay-Subsequence (copying b) rbuf saved flushed s = Subsequence-tail b saved flushed s

  -- From a new store on, whatever the goroutines do and whichever copies fail, the buffers that
  -- the database took are flushed ones, in the order of their flushes and none of them twice.
  pub run-Subsequence :
      (config : StoreConfig) (es : List (Event R))
      → Subsequence (run (new_store config) es).saved (run (new_store config) es).flushed
  run-Subsequence config es =
      OnTheWay-Subsequence _ _ _ _
        (run-IsDelivering (new_store config) es (unfold new_store in refl))
