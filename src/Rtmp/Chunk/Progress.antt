-- ===== src/Rtmp/Chunk/Progress.antt =====
-- Reading a chunk takes a byte at least, or fails with one of Go's errors.
use mediamtx.Base.{
  ℕ, ◌<◌, ◌≡◌, Bool, true, false, List, arith, length, length-drop, leb, if◌then◌else◌,
}
use mediamtx.Rtmp.Bytes.{Error, stuck, Result, ok, err, ◌>>=◌, read_full, be24}
use mediamtx.Rtmp.Chunk.{read_timestamp, skip_timestamp, read0, read1, read2, read3}

abbrev pub is_stuck : Error → Bool
is_stuck stuck = true
is_stuck _ = false

-- The result has the property, or is one of Go's errors.
abbrev pub Good {ℓ} : {A : Type ℓ} → (A → Type 0) → Result A → Type 0
Good P (ok a) = P a
Good P (err e) = is_stuck e ≡ false

pub Good-bind :
    {A B : Type 0} (P : A → Type 0) (Q : B → Type 0) (m : Result A) (f : A → Result B)
    → Good P m
    → ((a : A) → P a → Good Q (f a))
    → Good Q (m >>= f)
Good-bind P Q (ok a) f h k = k a h
Good-bind P Q (err e) f h k = h

pub Good-if :
    {A : Type 0} (P : A → Type 0) (b : Bool) (m n : Result A)
    → Good P m
    → Good P n
    → Good P (if b then m else n)
Good-if P true m n h k = h
Good-if P false m n h k = k

pub Good-guard :
    {A : Type 0} (P : A → Type 0) (e : Error) (b : Bool) (n : Result A)
    → is_stuck e ≡ false
    → Good P n
    → Good P (if b then err e else n)
Good-guard P e true n h k = h
Good-guard P e false n h k = k

-- Fewer than n bytes are left.
abbrev pub Leaves : {A : Type 0} → ℕ → A × List ℕ → Type 0
Leaves n x = length x.1 < n

read_full-Leaves_fewer :
    (n : ℕ) (input : List ℕ) → 0 < n → Good (Leaves (length input)) (read_full n input)
unfolding read_full
read_full-Leaves_fewer n input h = ground (arith, length-drop n input)

read_full-Leaves :
    (n k : ℕ) (input : List ℕ) → length input < k → Good (Leaves k) (read_full n input)
unfolding read_full
read_full-Leaves n k input h = ground (arith, length-drop n input)

read_timestamp-Leaves :
    (t k : ℕ) (input : List ℕ) → length input < k → Good (Leaves k) (read_timestamp t input)
unfolding read_timestamp
read_timestamp-Leaves t k input h =
    Good-if (Leaves k) (leb 0xffffff t) _ _
      (Good-bind (Leaves k) (Leaves k) (read_full 4 input) _ (read_full-Leaves 4 k input h)
        (λ x l. l))
      h

-- Each chunk takes a byte at least.
module _ (m : ℕ) (input : List ℕ) where
  pub read0-Leaves : Good (Leaves (length input)) (read0 m input)
  unfolding read0
  read0-Leaves =
      Good-bind (Leaves (length input)) _ (read_full 12 input) _
        (read_full-Leaves_fewer 12 input (omega arith))
        λ x h.
          Good-bind (Leaves (length input)) _ (read_timestamp (be24 x.0 1) x.1) _
            (read_timestamp-Leaves _ _ x.1 h)
            λ y k.
              Good-bind (Leaves (length input)) _ (read_full _ y.1) _ (read_full-Leaves _ _ y.1 k)
                (λ z l. l)

  pub read1-Leaves : Good (Leaves (length input)) (read1 m input)
  unfolding read1
  read1-Leaves =
      Good-bind (Leaves (length input)) _ (read_full 8 input) _
        (read_full-Leaves_fewer 8 input (omega arith))
        λ x h.
          Good-bind (Leaves (length input)) _ (read_timestamp (be24 x.0 1) x.1) _
            (read_timestamp-Leaves _ _ x.1 h)
            λ y k.
              Good-bind (Leaves (length input)) _ (read_full _ y.1) _ (read_full-Leaves _ _ y.1 k)
                (λ z l. l)

  pub read2-Leaves : Good (Leaves (length input)) (read2 m input)
  unfolding read2
  read2-Leaves =
      Good-bind (Leaves (length input)) _ (read_full 4 input) _
        (read_full-Leaves_fewer 4 input (omega arith))
        λ x h.
          Good-bind (Leaves (length input)) _ (read_timestamp (be24 x.0 1) x.1) _
            (read_timestamp-Leaves _ _ x.1 h)
            λ y k.
              Good-bind (Leaves (length input)) _ (read_full m y.1) _ (read_full-Leaves m _ y.1 k)
                (λ z l. l)

  pub skip_timestamp-Leaves :
      (b : Bool) (k : ℕ) (rest : List ℕ)
      → length rest < k
      → Good (λ y. length y < k) (skip_timestamp b rest)
  unfolding skip_timestamp
  skip_timestamp-Leaves true k rest h =
      Good-bind (Leaves k) _ (read_full 4 rest) _ (read_full-Leaves 4 k rest h) (λ x l. l)
  skip_timestamp-Leaves false k rest h = h

  pub read3-Leaves : (b : Bool) → Good (Leaves (length input)) (read3 m b input)
  unfolding read3
  read3-Leaves b =
      Good-bind (Leaves (length input)) _ (read_full 1 input) _
        (read_full-Leaves_fewer 1 input (omega arith))
        λ x h.
          Good-bind (λ y. length y < length input) _ (skip_timestamp b x.1) _
            (skip_timestamp-Leaves b _ x.1 h)
            λ y k.
              Good-bind (Leaves (length input)) _ (read_full m y) _ (read_full-Leaves m _ y k)
                (λ z l. l)
