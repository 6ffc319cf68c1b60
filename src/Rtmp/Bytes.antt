-- ===== src/Rtmp/Bytes.antt =====
-- Byte slices as lists of numbers, `io.ReadFull`, and big-endian integers.
use mediamtx.Base.{
  ℕ, zero, suc, ◌+◌, ◌*◌, ◌/◌, ◌%◌, ◌^◌, ◌<◌, ◌≡◌, refl, sym, ap, ◌∙◌, Bool, true, false, arith,
  List, [], ◌∷◌, ◌++◌, length, take, drop, leb, ◌==◌, is_empty, if◌then◌else◌, take-length_append,
  take-suc-length, replicate, drop-length_append, length-append,
}
use Prim.Native.Nat.{bit_and, bit_or}

abbrev pub IsByte : ℕ → Type 0
IsByte b = b < 256

abbrev pub IsU24 : ℕ → Type 0
IsU24 n = n < 2 ^ 24

abbrev pub IsU32 : ℕ → Type 0
IsU32 n = n < 2 ^ 32

-- `more_chunks_needed` is the reader's own signal. `stuck` is no Go error: a loop ran out of fuel.
pub data Error : Type 0 where
  eof unexpected_eof more_chunks_needed : Error
  expected_type_3 without_previous_chunk body_too_large chunk_size_too_large : Error
  extended_chunk_stream_id no_acknowledge ack_failed : Error
  stuck : Error

pub data Result {ℓ} (A : Type ℓ) : Type ℓ where
  ok : A → Result A
  err : Error → Result A

infixl 5 ◌>>=◌
abbrev pub ◌>>=◌ {ℓ κ} : {A : Type ℓ} {B : Type κ} → Result A → (A → Result B) → Result B
ok a >>= f = f a
err e >>= f = err e

pub bind-ok {ℓ κ} :
    {A : Type ℓ} {B : Type κ} (m : Result A) (a : A) (f : A → Result B) → m ≡ ok a → (m >>= f) ≡ f a
bind-ok m a f e = ap (λ x. x >>= f) e

-- `io.ReadFull` into a buffer of n bytes: what is read, and what is left.
unfoldable pub read_full : ℕ → List ℕ → Result (List ℕ × List ℕ)
read_full n input =
    if leb n (length input)
    then ok (take n input, drop n input)
    else if is_empty input
    then err eof
    else err unexpected_eof

pub read_full-append : (xs rest : List ℕ) → read_full (length xs) (xs ++ rest) ≡ ok (xs, rest)
unfolding read_full
read_full-append xs rest =
    ground (arith, length-append xs rest, take-length_append xs rest, drop-length_append xs rest)

-- The same where the length is known by another name.
pub read_full_eq :
    (n : ℕ) (xs rest : List ℕ) → length xs ≡ n → read_full n (xs ++ rest) ≡ ok (xs, rest)
read_full_eq n xs rest e = ap (λ k. read_full k (xs ++ rest)) (sym e) ∙ read_full-append xs rest

-- `h[i]`; the callers read within the buffer.
abbrev pub byte_at : List ℕ → ℕ → ℕ
byte_at [] i = 0
byte_at (b ∷ bs) zero = b
byte_at (b ∷ bs) (suc i) = byte_at bs i

-- `uint32(h[i])<<16 | uint32(h[i+1])<<8 | uint32(h[i+2])`: the operands have no bit in common, so
-- that `|` is `+`. Likewise with four bytes.
abbrev pub be24 : List ℕ → ℕ → ℕ
be24 h i = byte_at h i * 65536 + byte_at h (suc i) * 256 + byte_at h (suc (suc i))

abbrev pub be32 : List ℕ → ℕ → ℕ
be32 h i =
    byte_at h i * 16777216
    + byte_at h (suc i) * 65536
    + byte_at h (suc (suc i)) * 256
    + byte_at h (suc (suc (suc i)))

-- `byte(v >> 16), byte(v >> 8), byte(v)`, in front of what follows.
abbrev pub put_be24 : ℕ → List ℕ → List ℕ
put_be24 v l = (v / 65536 % 256) ∷ (v / 256 % 256) ∷ (v % 256) ∷ l

abbrev pub put_be32 : ℕ → List ℕ → List ℕ
put_be32 v l = (v / 16777216 % 256) ∷ put_be24 v l

pub be24_split : (v : ℕ) → IsU24 v → v / 65536 % 256 * 65536 + v / 256 % 256 * 256 + v % 256 ≡ v
be24_split v h = omega arith

pub be32_split :
    (v : ℕ)
    → IsU32 v
    → v / 16777216 % 256 * 16777216 + v / 65536 % 256 * 65536 + v / 256 % 256 * 256 + v % 256 ≡ v
be32_split v h = omega arith

-- Masks on a byte, checked on all values.
module _ (f g : ℕ → ℕ) where
  unfoldable pub same_below : ℕ → Bool
  same_below zero = true
  same_below (suc n) = let rest = same_below n in if f n == g n then rest else false

  pub same_below→eq : (n : ℕ) → same_below n ≡ true → (i : ℕ) → i < n → f i ≡ g i
  unfolding same_below
  same_below→eq zero e i h = absurd (omega arith)
  same_below→eq (suc n) e i h = ground (arith, same_below→eq n (ground arith) i)

-- `b & 0x3F`
pub bit_and-0x3f : (b : ℕ) → b < 256 → bit_and b 0x3f ≡ b % 64
unfolding same_below
bit_and-0x3f = same_below→eq _ _ 256 refl

-- `t<<6 | id`
pub bit_or-64 : (i : ℕ) → i < 64 → bit_or 64 i ≡ 64 + i
unfolding same_below
bit_or-64 = same_below→eq _ _ 64 refl

pub bit_or-128 : (i : ℕ) → i < 64 → bit_or 128 i ≡ 128 + i
unfolding same_below
bit_or-128 = same_below→eq _ _ 64 refl

pub bit_or-192 : (i : ℕ) → i < 64 → bit_or 192 i ≡ 192 + i
unfolding same_below
bit_or-192 = same_below→eq _ _ 64 refl

-- `make([]byte, size)`, and `copy` into it from its start.
unfoldable pub copied : ℕ → List ℕ → List ℕ
copied size l = take size (l ++ replicate size 0)

pub copied-whole : (size : ℕ) (l : List ℕ) → size ≡ length l → copied size l ≡ l
unfolding copied
copied-whole size l e =
    ap (λ n. take n (l ++ replicate size 0)) e ∙ take-length_append l (replicate size 0)

-- One byte of the buffer stays zero.
pub copied-short : (size : ℕ) (l : List ℕ) → size ≡ suc (length l) → copied size l ≡ l ++ (0 ∷ [])
unfolding copied
copied-short size l e =
    ap (λ n. take n (l ++ replicate n 0)) e ∙ take-suc-length 0 l (replicate (length l) 0)
