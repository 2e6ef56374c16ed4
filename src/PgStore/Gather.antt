-- ===== src/PgStore/Gather.antt =====
-- What the buffers of pgstore.go hold: nothing is lost or reordered before a flush, and a flush
-- comes at the latest when the buffer is full.
use gpstracker_backend.Base.{
  ℕ, ◌-◌, ◌≤◌, ◌<◌, ◌≡◌, refl, sym, ap, ◌∙◌, Bool, true, false, List, [], ◌∷◌, ◌++◌, length, ◌==◌,
  ltb, not, ◌&&◌, if◌then◌else◌, inl, inr, arith, Bool-cases, length-append,
}
use gpstracker_backend.PgStore.{
  PgStore, Buffer, Handler, starting, waiting, woken, copying, flush, append_record, put_record,
  tick, resume, finish, done, Event, put_event, tick_event, resume_event, finish_event, step, run,
}

module _ {R : Type 0} where
  append_assoc : (xs ys zs : List R) → (xs ++ ys) ++ zs ≡ xs ++ (ys ++ zs)
  append_assoc [] ys zs = refl
  append_assoc (x ∷ xs) ys zs = ap (λ t. x ∷ t) (append_assoc xs ys zs)

  append_nil : (xs : List R) → xs ++ [] ≡ xs
  append_nil [] = refl
  append_nil (x ∷ xs) = ap (λ t. x ∷ t) (append_nil xs)

  -- The records of the flushed buffers, oldest first.
  abbrev pub gathered : List (Buffer R) → List R
  gathered [] = []
  gathered (b ∷ bs) = gathered bs ++ b.buf

  -- The records that were put, in order.
  abbrev pub puts : List (Event R) → List R
  puts [] = []
  puts (put_event r now ∷ es) = r ∷ puts es
  puts (tick_event t ∷ es) = puts es
  puts (resume_event ∷ es) = puts es
  puts (finish_event good ∷ es) = puts es

  abbrev pub contents : PgStore R → List R
  contents st = gathered st.flushed ++ st.wbuf.buf

  contents-flush : (st : PgStore R) (now : ℕ) → contents (flush st now) ≡ contents st
  unfolding flush
  contents-flush st now = append_nil (gathered st.flushed ++ st.wbuf.buf)

  contents-put_record :
      (st : PgStore R) (r : R) (now : ℕ) → contents (put_record st r now) ≡ contents st ++ r ∷ []
  unfolding put_record
  contents-put_record st r now =
      flushed_or_not (length (st.wbuf.buf ++ r ∷ []) == st.config.buf_size) _
      ∙ sym (append_assoc (gathered st.flushed) st.wbuf.buf (r ∷ []))
    where
      flushed_or_not :
          (b : Bool) (st' : PgStore R) → contents (if b then flush st' now else st') ≡ contents st'
      flushed_or_not true st' = contents-flush st' now
      flushed_or_not false st' = refl

  contents-tick : (st : PgStore R) (t : ℕ) → contents (tick st t) ≡ contents st
  unfolding tick
  contents-tick st t =
      elim (Bool-cases
        (not (length st.wbuf.buf == 0) && ltb st.config.max_age_flush (t - st.wbuf.t1))) [
          | inl y ↦ rw y (contents-flush st t)
          | inr n ↦ rw n refl
        ]

  done-same :
      (st : PgStore R) (h : Handler R) (good : Bool)
      → ((done st h good).wbuf ≡ st.wbuf)
        × ((done st h good).flushed ≡ st.flushed)
        × ((done st h good).config ≡ st.config)
  done-same st starting good = (refl, refl, refl)
  done-same st waiting good = (refl, refl, refl)
  done-same st woken good = (refl, refl, refl)
  done-same st (copying b) true = (refl, refl, refl)
  done-same st (copying b) false = (refl, refl, refl)

  contents-finish : (st : PgStore R) (good : Bool) → contents (finish st good) ≡ contents st
  unfolding finish
  contents-finish st good =
      let (w, f, c) = done-same st st.handler good in λ i. gathered (f i) ++ (w i).buf

  -- Whatever the goroutines do, the flushed buffers in order and the one that is written hold
  -- exactly the records that were there before and those that were put since, in order.
  pub contents-run :
      (st : PgStore R) (es : List (Event R)) → contents (run st es) ≡ contents st ++ puts es
  unfolding run step resume
  contents-run st [] = sym (append_nil (contents st))
  contents-run st (put_event r now ∷ es) =
      contents-run (put_record st r now) es
      ∙ ap (λ c. c ++ puts es) (contents-put_record st r now)
      ∙ append_assoc (contents st) (r ∷ []) (puts es)
  contents-run st (tick_event t ∷ es) =
      contents-run (tick st t) es ∙ ap (λ c. c ++ puts es) (contents-tick st t)
  contents-run st (resume_event ∷ es) = contents-run (resume st) es
  contents-run st (finish_event good ∷ es) =
      contents-run (finish st good) es ∙ ap (λ c. c ++ puts es) (contents-finish st good)

  -- There is room for a record, buffers are numbered as they were flushed, and none is larger
  -- than the configured size.
  abbrev pub Numbered : ℕ → List (Buffer R) → Type 0
  Numbered n [] = Unit {0}
  Numbered n (b ∷ bs) = (b.seq ≡ length bs) × (length b.buf ≤ n) × Numbered n bs

  abbrev pub IsTidy : PgStore R → Type 0
  IsTidy st =
      (length st.wbuf.buf < st.config.buf_size)
      × (st.wbuf.seq ≡ length st.flushed)
      × Numbered st.config.buf_size st.flushed

  flush-IsTidy :
      (st : PgStore R) (now : ℕ)
      → 0 < st.config.buf_size
      → length st.wbuf.buf ≤ st.config.buf_size
      → st.wbuf.seq ≡ length st.flushed
      → Numbered st.config.buf_size st.flushed
      → IsTidy (flush st now)
  unfolding flush
  flush-IsTidy st now pos fits seq num = (pos, omega arith, (seq, fits, num))

  put_record-IsTidy : (st : PgStore R) (r : R) (now : ℕ) → IsTidy st → IsTidy (put_record st r now)
  unfolding put_record
  put_record-IsTidy st r now (room, seq, num) =
      elim (Bool-cases (length (st.wbuf.buf ++ r ∷ []) == st.config.buf_size)) [
        | inl y ↦ rw y (
            flush-IsTidy (append_record st r now) now (omega arith)
              (omega (arith, length-append st.wbuf.buf (r ∷ []))) seq num)
        | inr n ↦ rw n (not_full n, seq, num)
      ]
    where
      not_full :
          (length (st.wbuf.buf ++ r ∷ []) == st.config.buf_size) ≡ false
          → length (st.wbuf.buf ++ r ∷ []) < st.config.buf_size
      not_full n = ground (arith, length-append st.wbuf.buf (r ∷ []))

  tick-IsTidy : (st : PgStore R) (t : ℕ) → IsTidy st → IsTidy (tick st t)
  unfolding tick
  tick-IsTidy st t (room, seq, num) =
      elim (Bool-cases
        (not (length st.wbuf.buf == 0) && ltb st.config.max_age_flush (t - st.wbuf.t1))) [
          | inl y ↦ rw y (flush-IsTidy st t (omega arith) (omega arith) seq num)
          | inr n ↦ rw n (room, seq, num)
        ]

  finish-IsTidy : (st : PgStore R) (good : Bool) → IsTidy st → IsTidy (finish st good)
  unfolding finish
  finish-IsTidy st good h = let (w, f, c) = done-same st st.handler good in rw (w, f, c) h

  -- Every run keeps this: the buffer that is written is below the configured size, so that no record is
  -- ever appended to a full one; the flushed buffers are numbered from zero without a gap and are
  -- at most of that size.
  pub run-IsTidy : (st : PgStore R) (es : List (Event R)) → IsTidy st → IsTidy (run st es)
  unfolding run step resume
  run-IsTidy st [] h = h
  run-IsTidy st (put_event r now ∷ es) h =
      run-IsTidy (put_record st r now) es (put_record-IsTidy st r now h)
  run-IsTidy st (tick_event t ∷ es) h = run-IsTidy (tick st t) es (tick-IsTidy st t h)
  run-IsTidy st (resume_event ∷ es) h = run-IsTidy (resume st) es h
  run-IsTidy st (finish_event good ∷ es) h =
      run-IsTidy (finish st good) es (finish-IsTidy st good h)
