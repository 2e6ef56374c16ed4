-- ===== src/Webstream/Leak.antt =====
-- What becomes of the writing goroutine of a browser that has gone.
use gpstracker_backend.Base.{
  ℕ, ◌≡◌, refl, ap, ◌∙◌, sym, Bool, true, false, List, [], ◌∷◌, Option, inl, inr, Bool-cases,
}
use gpstracker_backend.Base.Go.{Error, Result, ok, err, panic, Slice}
use gpstracker_backend.Webstream.{close_err, push, flush, Delay}
use gpstracker_backend.Webstream.Loops.{
  both_done, reading, reader_done, Writer, looping, writer_stuck, writer_done, Stream, read_round,
  write_round, Event, read_event, write_event, push_event, step, run, served,
}

abbrev goes_on : Writer → Bool
goes_on (looping d) = true
goes_on writer_stuck = true
goes_on writer_done = false

-- The browser has gone, nothing waits for it, and the writer has not returned.
record IsLeft (st : Stream) : Type 0 where
  is_closed : st.client.closed ≡ true
  is_empty : st.client.buf ≡ []
  is_read : st.reader ≡ reader_done
  is_on : goes_on st.writer ≡ true

read_round_done :
    (me : ℕ) (r : Result Slice) (st : Stream) → st.reader ≡ reader_done → read_round me r st ≡ st
unfolding read_round
read_round_done me (ok msg) st h = rw h refl
read_round_done me (err e) st h = rw h refl
read_round_done me panic st h = rw h refl

write_round-IsLeft : (fault : Option ℕ) (st : Stream) → IsLeft st → IsLeft (write_round fault st)
unfolding write_round flush
write_round-IsLeft fault st left = by_writer st.writer refl
  where
    by_writer : (w : Writer) → st.writer ≡ w → IsLeft (write_round fault st)
    by_writer (looping d) h = elim (Bool-cases st.client.locked) [
      | inl y ↦
          rw (h, y)
            (record {
              is_closed = left.is_closed;
              is_empty = left.is_empty;
              is_read = left.is_read;
              is_on = refl;
            })
      | inr n ↦
          rw (h, n, left.is_empty)
            (record {
              is_closed = left.is_closed;
              is_empty = refl;
              is_read = left.is_read;
              is_on = refl;
            })
    ]
    by_writer writer_stuck h = rw h (record {
      is_closed = left.is_closed;
      is_empty = left.is_empty;
      is_read = left.is_read;
      is_on = refl;
    })
    by_writer writer_done h = rw h (record {
      is_closed = left.is_closed;
      is_empty = left.is_empty;
      is_read = left.is_read;
      is_on = ap goes_on (sym h) ∙ left.is_on;
    })

push-IsLeft : (me : ℕ) (d : List ℕ) (st : Stream) → IsLeft st → IsLeft (step me (push_event d) st)
unfolding step push
push-IsLeft me d st left = elim (Bool-cases st.client.locked) [
  | inl y ↦ rw y (record {
    is_closed = left.is_closed;
    is_empty = left.is_empty;
    is_read = left.is_read;
    is_on = left.is_on;
  })
  | inr n ↦
      rw (n, left.is_closed)
        (record {
          is_closed = refl;
          is_empty = left.is_empty;
          is_read = left.is_read;
          is_on = left.is_on;
        })
]

step-IsLeft : (me : ℕ) (e : Event) (st : Stream) → IsLeft st → IsLeft (step me e st)
unfolding step
step-IsLeft me (read_event r) st left = rw (read_round_done me r st left.is_read) left
step-IsLeft me (write_event fault) st left = write_round-IsLeft fault st left
step-IsLeft me (push_event d) st left = push-IsLeft me d st left

run-IsLeft : (me : ℕ) (es : List Event) (st : Stream) → IsLeft st → IsLeft (run me es st)
unfolding run
run-IsLeft me [] st left = left
run-IsLeft me (e ∷ es) st left = run-IsLeft me es (step me e st) (step-IsLeft me e st left)

served_left : (st : Stream) → IsLeft st → served st ≡ false
unfolding served
served_left st left = rw left.is_read (by_writer st.writer left.is_on)
  where
    by_writer : (w : Writer) → goes_on w ≡ true → both_done reader_done w ≡ false
    by_writer (looping d) h = refl
    by_writer writer_stuck h = refl
    by_writer writer_done h = sym h

-- When the read of a browser that has gone fails and no message waits, the handler never returns:
-- whatever is pushed, and whether or not writes would fail, the goroutine that writes goes on, since
-- it has nothing to write and does not look at `closed`.
pub served-run :
    (me : ℕ) (e : Error) (es : List Event) (st : Stream) (d : Delay)
    → st.reader ≡ reading
    → st.writer ≡ looping d
    → st.client.locked ≡ false
    → st.client.buf ≡ []
    → served (run me (read_event (err e) ∷ es) st) ≡ false
unfolding run step read_round close_err
served-run me e es st d reads writes free empty =
    served_left (run me (read_event (err e) ∷ es) st) (
      run-IsLeft me es (read_round me (err e) st) (
        rw (reads, free)
          (record {
            is_closed = refl;
            is_empty = empty;
            is_read = refl;
            is_on = ap goes_on writes;
          })))
