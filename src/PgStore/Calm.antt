-- ===== src/PgStore/Calm.antt =====
-- When `handle` of pgstore.go keeps up, nothing is lost; when it does not, the last buffer stays.
use gpstracker_backend.Base.{
  ℕ, ◌≡◌, ◌⊎◌, refl, ap, ◌∙◌, Bool, true, false, List, [], ◌∷◌, ◌++◌, length, ◌==◌, ltb, not, ◌&&◌,
  ◌-◌, inl, inr, Bool-cases,
}
use gpstracker_backend.PgStore.{
  PgStore, Buffer, Handler, starting, waiting, woken, copying, flush, append_record, put_record,
  tick, resume, finish, done, wake, signal, Event, put_event, tick_event, resume_event,
  finish_event, step, run,
}

module _ {R : Type 0} where
  -- What is saved, and what `handle` has in its hands.
  abbrev pub taken : Handler R → Buffer R → List (Buffer R) → List (Buffer R)
  taken starting rbuf saved = saved
  taken waiting rbuf saved = saved
  taken woken rbuf saved = rbuf ∷ saved
  taken (copying b) rbuf saved = b ∷ saved

  abbrev pub IsUpToDate : PgStore R → Type 0
  IsUpToDate st = taken st.handler st.rbuf st.saved ≡ st.flushed

  -- A flush finds `handle` waiting, and a copy succeeds.
  abbrev pub IsCalm : PgStore R → Event R → Type 0
  IsCalm st (put_event r now) =
      (put_record st r now ≡ append_record st r now) ⊎ (st.handler ≡ waiting)
  IsCalm st (tick_event t) = (tick st t ≡ st) ⊎ (st.handler ≡ waiting)
  IsCalm st resume_event = Unit {0}
  IsCalm st (finish_event good) = good ≡ true

  abbrev pub AllCalm : PgStore R → List (Event R) → Type 0
  AllCalm st [] = Unit {0}
  AllCalm st (e ∷ es) = IsCalm st e × AllCalm (step st e) es

  flush-IsUpToDate :
      (st : PgStore R) (now : ℕ) → st.handler ≡ waiting → IsUpToDate st → IsUpToDate (flush st now)
  unfolding flush
  flush-IsUpToDate st now w h = rw w (λ i. record st.wbuf { t2 = now } ∷ (rw w at h) i)

  put_record-IsUpToDate :
      (st : PgStore R) (r : R) (now : ℕ)
      → IsCalm st (put_event r now)
      → IsUpToDate st
      → IsUpToDate (put_record st r now)
  put_record-IsUpToDate st r now (inl same) h = rw same h
  put_record-IsUpToDate st r now (inr w) h =
      elim (Bool-cases (length (st.wbuf.buf ++ r ∷ []) == st.config.buf_size)) [
        | inl y ↦ unfold put_record in rw y (flush-IsUpToDate (append_record st r now) now w h)
        | inr n ↦ unfold put_record in rw n h
      ]

  tick-IsUpToDate :
      (st : PgStore R) (t : ℕ) → IsCalm st (tick_event t) → IsUpToDate st → IsUpToDate (tick st t)
  tick-IsUpToDate st t (inl same) h = rw same h
  tick-IsUpToDate st t (inr w) h =
      elim (Bool-cases
        (not (length st.wbuf.buf == 0) && ltb st.config.max_age_flush (t - st.wbuf.t1))) [
          | inl y ↦ unfold tick in rw y (flush-IsUpToDate st t w h)
          | inr n ↦ unfold tick in rw n h
        ]

  resume-IsUpToDate : (st : PgStore R) → IsUpToDate st → IsUpToDate (resume st)
  unfolding resume
  resume-IsUpToDate st h = same st.handler st.rbuf st.saved ∙ h
    where
      same :
          (k : Handler R) (b : Buffer R) (saved : List (Buffer R))
          → taken (wake k b) b saved ≡ taken k b saved
      same starting b saved = refl
      same waiting b saved = refl
      same woken b saved = refl
      same (copying c) b saved = refl

  finish-IsUpToDate : (st : PgStore R) → IsUpToDate st → IsUpToDate (finish st true)
  unfolding finish
  finish-IsUpToDate st h = copied st.handler refl
    where
      copied : (k : Handler R) → st.handler ≡ k → IsUpToDate (done st k true)
      copied starting e = h
      copied waiting e = h
      copied woken e = h
      copied (copying b) e = rw e at h

  -- When every flush finds `handle` waiting and every copy succeeds, all flushed buffers are saved
  -- in order, but for the newest, which `handle` may still have in its hands.
  pub run-IsUpToDate :
      (st : PgStore R) (es : List (Event R))
      → AllCalm st es
      → IsUpToDate st
      → IsUpToDate (run st es)
  unfolding run step
  run-IsUpToDate st [] c h = h
  run-IsUpToDate st (put_event r now ∷ es) (c, cs) h =
      run-IsUpToDate (put_record st r now) es cs (put_record-IsUpToDate st r now c h)
  run-IsUpToDate st (tick_event t ∷ es) (c, cs) h =
      run-IsUpToDate (tick st t) es cs (tick-IsUpToDate st t c h)
  run-IsUpToDate st (resume_event ∷ es) (c, cs) h =
      run-IsUpToDate (resume st) es cs (resume-IsUpToDate st h)
  run-IsUpToDate st (finish_event good ∷ es) (c, cs) h =
      run-IsUpToDate (finish st good) es cs (rw c (finish-IsUpToDate st h))

  -- Nothing is flushed.
  abbrev pub IsQuiet : PgStore R → Event R → Type 0
  IsQuiet st (put_event r now) = put_record st r now ≡ append_record st r now
  IsQuiet st (tick_event t) = tick st t ≡ st
  IsQuiet st resume_event = Unit {0}
  IsQuiet st (finish_event good) = Unit {0}

  abbrev pub AllQuiet : PgStore R → List (Event R) → Type 0
  AllQuiet st [] = Unit {0}
  AllQuiet st (e ∷ es) = IsQuiet st e × AllQuiet (step st e) es

  -- `handle` waits or is about to.
  abbrev is_idle : Handler R → Bool
  is_idle starting = true
  is_idle waiting = true
  is_idle woken = false
  is_idle (copying b) = false

  wake_idle : (k : Handler R) (b : Buffer R) → is_idle k ≡ true → is_idle (wake k b) ≡ true
  wake_idle starting b h = refl
  wake_idle waiting b h = refl
  wake_idle woken b h = h
  wake_idle (copying c) b h = h

  done_idle :
      (st : PgStore R) (k : Handler R) (good : Bool) → is_idle k ≡ true → done st k good ≡ st
  done_idle st starting good h = refl
  done_idle st waiting good h = refl
  done_idle st woken good h = refl
  done_idle st (copying b) good h = cc

  waits :
      (st : PgStore R) (es : List (Event R))
      → is_idle st.handler ≡ true
      → AllQuiet st es
      → (run st es).saved ≡ st.saved
  unfolding run step resume finish
  waits st [] w q = refl
  waits st (put_event r now ∷ es) w (q, qs) =
      waits (put_record st r now) es (ap (λ s. is_idle s.handler) q ∙ w) qs ∙ ap (λ s. s.saved) q
  waits st (tick_event t ∷ es) w (q, qs) =
      waits (tick st t) es (ap (λ s. is_idle s.handler) q ∙ w) qs ∙ ap (λ s. s.saved) q
  waits st (resume_event ∷ es) w (q, qs) = waits (resume st) es (wake_idle st.handler st.rbuf w) qs
  waits st (finish_event good ∷ es) w (q, qs) =
      let same = done_idle st st.handler good w in
      waits (finish st good) es (ap (λ s. is_idle s.handler) same ∙ w) qs ∙ ap (λ s. s.saved) same

  flushed_handler :
      (st : PgStore R) (b : Buffer R) (now : ℕ)
      → st.handler ≡ copying b
      → is_idle (finish (flush st now) true).handler ≡ true
  unfolding finish flush
  flushed_handler st b now c = ap (λ k. is_idle (done (flush st now) (signal k) true).handler) c

  flushed_saved :
      (st : PgStore R) (b : Buffer R) (now : ℕ)
      → st.handler ≡ copying b
      → (finish (flush st now) true).saved ≡ b ∷ st.saved
  unfolding finish flush
  flushed_saved st b now c = ap (λ k. (done (flush st now) (signal k) true).saved) c

  -- A flush that comes while `handle` copies the buffer `b` is not signalled: after the copy
  -- nothing more is saved until there is another flush, whatever else happens.
  pub flush_unsignalled :
      (st : PgStore R) (b : Buffer R) (now : ℕ) (es : List (Event R))
      → st.handler ≡ copying b
      → AllQuiet (finish (flush st now) true) es
      → (run (finish (flush st now) true) es).saved ≡ b ∷ st.saved
  flush_unsignalled st b now es c q =
      waits (finish (flush st now) true) es (flushed_handler st b now c) q
      ∙ flushed_saved st b now c
