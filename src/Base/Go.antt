-- ===== src/Base/Go.antt =====
-- What the Go code can end in, its byte slices, and what a connection has to offer to a reader.
use Prim.Native.Nat.{ℕ, zero, suc, ◌+◌, ◌-◌, ◌≤◌}
use mathlib.Core.Path.{◌≡◌, refl}
use mathlib.Core.Bool.{◌&&◌}
use mathlib.Core.Option.{Option, none, some}
use mathlib.Core.List.{List, [], ◌∷◌, ◌++◌, map}
use native.Mathlib.Omega.{arith}
use gpstracker_backend.Base.Tests.{if◌then◌else◌, leb}
use gpstracker_backend.Base.Lists.{
  length, get_elem?, take, drop, length-append, length-take, length-drop,
}

-- The errors that the code tells apart or passes on.
pub data Error : Type 0 where
  buffer_too_small bad_frame eof unexpected_eof timeout closed bad_json bad_number : Error
  no_rows query_failed write_failed : Error

-- A (value, error) pair, or a run-time panic.
pub data Result {ℓ} (A : Type ℓ) : Type ℓ where
  ok : A → Result A
  err : Error → Result A
  panic : Result A

infixl 5 ◌>>=◌ ◌>>◌
abbrev pub ◌>>=◌ {ℓ κ} : {A : Type ℓ} {B : Type κ} → Result A → (A → Result B) → Result B
ok a >>= f = f a
err e >>= f = err e
panic >>= f = panic

abbrev pub ◌>>◌ {ℓ} : {B : Type ℓ} → Result (Unit {0}) → Result B → Result B
m >> k = m >>= λ _. k

-- A byte slice: its elements, and those behind its end that its capacity still covers.
pub record Slice : Type 0 where
  pub vis : List ℕ
  pub spare : List ℕ

abbrev pub of_list : List ℕ → Slice
of_list xs = record { vis = xs; spare = [] }

abbrev pub or_panic {ℓ} : {A : Type ℓ} → Option A → Result A
or_panic none = panic
or_panic (some a) = ok a

-- `s[i]` panics outside the length.
abbrev pub index : Slice → ℕ → Result ℕ
index s i = or_panic (get_elem? s.vis i)

-- `s[a:b]` panics only outside the capacity.
abbrev pub reslice : Slice → ℕ → ℕ → Result Slice
reslice s a b =
    if leb a b && leb b (length s.vis + length s.spare)
    then ok (record {
      vis = take (b - a) (drop a (s.vis ++ s.spare));
      spare = drop b (s.vis ++ s.spare);
    })
    else panic

-- `s[a:]`
abbrev pub from : Slice → ℕ → Result Slice
from s a = reslice s a (length s.vis)

-- `copy(buf[off:], src)`: what does not fit is dropped.
abbrev pub overlay : List ℕ → List ℕ → List ℕ
overlay [] src = []
overlay (x ∷ buf) [] = x ∷ buf
overlay (x ∷ buf) (b ∷ src) = b ∷ overlay buf src

abbrev pub copy_at : List ℕ → ℕ → List ℕ → List ℕ
copy_at buf zero src = overlay buf src
copy_at [] (suc off) src = []
copy_at (x ∷ buf) (suc off) src = x ∷ copy_at buf off src

-- What a peer lets a reader see: a byte, a deadline that passes first, or a broken connection.
-- The end of the list is the end of the stream.
pub data Input : Type 0 where
  byte : ℕ → Input
  late : Input
  broken : Input

-- `io.ReadFull` before it renames an end of the stream inside the block.
unfoldable pub read_bytes : List Input → ℕ → List ℕ × List Input × Option Error
read_bytes s zero = ([], s, none)
read_bytes [] (suc n) = ([], [], some eof)
read_bytes (late ∷ s) (suc n) = ([], s, some timeout)
read_bytes (broken ∷ s) (suc n) = ([], broken ∷ s, some closed)
read_bytes (byte b ∷ s) (suc n) = let (bs, rest, e) = read_bytes s n in (b ∷ bs, rest, e)

abbrev pub rename_eof : List ℕ → Option Error → Option Error
rename_eof (b ∷ bs) (some eof) = some unexpected_eof
rename_eof _ e = e

unfoldable pub read_full : List Input → ℕ → List ℕ × List Input × Option Error
unfolding read_bytes
read_full s n = let (bs, rest, e) = read_bytes s n in (bs, rest, rename_eof bs e)

pub length-overlay : (buf src : List ℕ) → length (overlay buf src) ≡ length buf
length-overlay [] src = refl
length-overlay (x ∷ buf) [] = refl
length-overlay (x ∷ buf) (b ∷ src) = omega (arith, length-overlay buf src)

pub length-copy_at : (buf src : List ℕ) (off : ℕ) → length (copy_at buf off src) ≡ length buf
length-copy_at buf src zero = length-overlay buf src
length-copy_at [] src (suc off) = refl
length-copy_at (x ∷ buf) src (suc off) = omega (arith, length-copy_at buf src off)

-- What fits replaces a prefix.
pub overlay-append :
    (buf src : List ℕ) → length src ≤ length buf → overlay buf src ≡ src ++ drop (length src) buf
overlay-append [] [] h = refl
overlay-append [] (b ∷ src) h = absurd (omega arith)
overlay-append (x ∷ buf) [] h = refl
overlay-append (x ∷ buf) (b ∷ src) h = λ i. b ∷ overlay-append buf src (omega arith) i

-- A read of bytes that are there takes them and leaves the rest.
pub read_bytes-map :
    (bs : List ℕ) (rest : List Input)
    → read_bytes (map byte bs ++ rest) (length bs) ≡ (bs, rest, none)
unfolding read_bytes
read_bytes-map [] rest = refl
read_bytes-map (b ∷ bs) rest = rw (read_bytes-map bs rest)

pub read_full-map :
    (bs : List ℕ) (rest : List Input) (n : ℕ)
    → length bs ≡ n
    → read_full (map byte bs ++ rest) n ≡ (bs, rest, none)
unfolding read_full read_bytes
read_full-map [] rest n e = rw (← e) refl
read_full-map (b ∷ bs) rest n e = rw (← e, read_bytes-map bs rest) refl

-- Without an error a read takes exactly the bytes that it was asked for.
pub read_bytes_takes :
    (s : List Input) (n : ℕ)
    → (read_bytes s n).2 ≡ none
    → (s ≡ map byte (read_bytes s n).0 ++ (read_bytes s n).1) × (length (read_bytes s n).0 ≡ n)
unfolding read_bytes
read_bytes_takes s zero e = (refl, refl)
read_bytes_takes [] (suc n) e = cc
read_bytes_takes (late ∷ s) (suc n) e = cc
read_bytes_takes (broken ∷ s) (suc n) e = cc
read_bytes_takes (byte b ∷ s) (suc n) e =
    let (same, len) = read_bytes_takes s n e in ((λ i. byte b ∷ same i), (λ i. suc (len i)))

rename_eof-none : (bs : List ℕ) (e : Option Error) → rename_eof bs e ≡ none → e ≡ none
rename_eof-none bs none h = refl
rename_eof-none [] (some e) h = h
rename_eof-none (b ∷ bs) (some e) h = ground arith

pub read_full_takes :
    (s : List Input) (n : ℕ)
    → (read_full s n).2 ≡ none
    → (s ≡ map byte (read_full s n).0 ++ (read_full s n).1) × (length (read_full s n).0 ≡ n)
unfolding read_full
read_full_takes s n e = read_bytes_takes s n (rename_eof-none _ _ e)

pub reslice_within :
    (s : Slice) (a b : ℕ)
    → a ≤ b
    → b ≤ length s.vis + length s.spare
    → reslice s a b
      ≡ ok (record {
        vis = take (b - a) (drop a (s.vis ++ s.spare));
        spare = drop b (s.vis ++ s.spare);
      })
reslice_within s a b h k = ground arith

-- Bounds inside the length are inside the capacity.
pub reslice_fits :
    (s : Slice) (a b : ℕ)
    → a ≤ b
    → b ≤ length s.vis
    → reslice s a b
      ≡ ok (record {
        vis = take (b - a) (drop a (s.vis ++ s.spare));
        spare = drop b (s.vis ++ s.spare);
      })
reslice_fits s a b h k = ground arith

-- `s[a:]` drops `a` elements and keeps the capacity.
pub from_fits :
    (s : Slice) (a : ℕ)
    → a ≤ length s.vis
    → (t : Slice) × (from s a ≡ ok t)
      × (length t.vis ≡ length s.vis - a)
      × (length t.spare ≡ length s.spare)
from_fits s a h = (
  _,
  reslice_fits s a (length s.vis) h (omega arith),
  omega (
    arith,
    length-take (length s.vis - a) (drop a (s.vis ++ s.spare)),
    length-drop a (s.vis ++ s.spare),
    length-append s.vis s.spare,
  ),
  omega (arith, length-drop (length s.vis) (s.vis ++ s.spare), length-append s.vis s.spare),
)
