-- ===== src/Codec.antt =====
-- How the program lays scalars out in a message: `sizeof` bytes of the object, as `add(&x, sizeof(x))`
-- and `read(&x, sizeof(x))` copy them. The platform is the one that the program is built for, with
-- the least significant byte first, 4-byte enumerations and 8-byte `time_t`, `long` and durations.
pub mod Laws
use native.Mathlib.Nat.{pow-suc}
use application_aware_resour.Prelude.{
  ℕ, zero, suc, ◌+◌, ◌*◌, ◌/◌, ◌%◌, ◌^◌, ◌<◌, ◌≡◌, refl, ap, ◌∙◌, List, [], ◌∷◌, ◌++◌, Option, none,
  some, arith, length, take, drop, length-append, take-append, drop-append, ℤ, to_word, of_word,
  to_word-lt, of_word-to_word, IsInt64,
}
use application_aware_resour.Buffer.{Buffer, add, read}

-- The `w` bytes of an unsigned integer.
unfoldable pub encode : ℕ → ℕ → List ℕ
encode zero v = []
encode (suc w) v = (v % 256) ∷ encode w (v / 256)

unfoldable pub decode : List ℕ → ℕ
decode [] = 0
decode (b ∷ bs) = b + 256 * decode bs

pub length-encode : (w v : ℕ) → length (encode w v) ≡ w
unfolding encode
length-encode zero v = refl
length-encode (suc w) v = ap suc (length-encode w (v / 256))

pub decode-encode : (w v : ℕ) → v < 256 ^ w → decode (encode w v) ≡ v
unfolding encode decode
decode-encode zero v h = omega arith
decode-encode (suc w) v h = omega (arith, decode-encode w (v / 256) (omega (arith, pow-suc 256 w)))

-- `struct timespec`
pub record Timespec : Type 0 where
  pub tv_sec : ℤ
  pub tv_nsec : ℤ

unfoldable pub encode_timespec : Timespec → List ℕ
encode_timespec t = encode 8 (to_word t.tv_sec) ++ encode 8 (to_word t.tv_nsec)

unfoldable pub decode_timespec : List ℕ → Timespec
decode_timespec bytes = record {
  tv_sec = of_word (decode (take 8 bytes));
  tv_nsec = of_word (decode (drop 8 bytes));
}

abbrev pub IsTimespec : Timespec → Type 0
IsTimespec t = IsInt64 t.tv_sec × IsInt64 t.tv_nsec

pub length-encode_timespec : (t : Timespec) → length (encode_timespec t) ≡ 16
unfolding encode_timespec
length-encode_timespec t = omega (
  arith,
  length-append (encode 8 (to_word t.tv_sec)) (encode 8 (to_word t.tv_nsec)),
  length-encode 8 (to_word t.tv_sec),
  length-encode 8 (to_word t.tv_nsec),
)

word-decode : (z : ℤ) → IsInt64 z → of_word (decode (encode 8 (to_word z))) ≡ z
word-decode z h = ap of_word (decode-encode 8 (to_word z) (to_word-lt z)) ∙ of_word-to_word z h

pub decode-encode_timespec : (t : Timespec) → IsTimespec t → decode_timespec (encode_timespec t) ≡ t
unfolding encode_timespec decode_timespec
decode-encode_timespec t h = λ i. record {
  tv_sec = (ap (λ bs. of_word (decode bs)) front ∙ word-decode t.tv_sec h.0) i;
  tv_nsec = (ap (λ bs. of_word (decode bs)) back ∙ word-decode t.tv_nsec h.1) i;
}
  where
    sec : List ℕ
    sec = encode 8 (to_word t.tv_sec)

    nsec : List ℕ
    nsec = encode 8 (to_word t.tv_nsec)

    front : take 8 (sec ++ nsec) ≡ sec
    front = take-append sec nsec 8 (length-encode 8 _)

    back : drop 8 (sec ++ nsec) ≡ nsec
    back = drop-append sec nsec 8 (length-encode 8 _)

-- A method that reads from a message: every result of `read` is ignored, so a target that the
-- message has no bytes for keeps its value.
abbrev pub Reader : Type 0 → Type 0
Reader A = Buffer → A × Buffer

infixl 5 ◌>>=◌
unfoldable pub ◌>>=◌ : {A B : Type 0} → Reader A → (A → Reader B) → Reader B
◌>>=◌ m f b = let (a, b') = m b in f a b'

unfoldable pub return : {A : Type 0} → A → Reader A
return a b = (a, b)

abbrev pub decode_or {ℓ} : {A : Type ℓ} → (List ℕ → A) → A → Option (List ℕ) → A
decode_or f old none = old
decode_or f old (some bytes) = f bytes

unfoldable pub read_as : {A : Type 0} → (List ℕ → A) → ℕ → A → Reader A
read_as f size old b = let (bytes, b') = read b size in (decode_or f old bytes, b')

-- `message->read(&x, sizeof(x))` at an unsigned integer, a `timespec`, and plain memory
abbrev pub read_uint : ℕ → ℕ → Reader ℕ
read_uint = read_as decode

abbrev pub read_timespec : Timespec → Reader Timespec
read_timespec = read_as decode_timespec 16

abbrev pub read_raw : ℕ → List ℕ → Reader (List ℕ)
read_raw = read_as (λ bytes. bytes)

-- `message->add(&x, sizeof(x))`, with its result ignored
unfoldable pub put : List ℕ → Buffer → Buffer
put val b = (add b val).1
