-- ===== src/Uuid/Text.antt =====
-- The texts of identifiers: what is written is read back.
use application_aware_resour.Prelude.{
  ℕ, zero, suc, ◌+◌, ◌*◌, ◌/◌, ◌%◌, ◌^◌, ◌<◌, ◌≡◌, refl, ap, arith, List, [], ◌∷◌, ◌++◌, none, some,
  Bool, true, false, length, All, drop, append_assoc, append-nil, le→ltb, sym, subst, ◌==◌, ◌&&◌,
  ◌||◌,
}
use application_aware_resour.Uuid.Hex.{
  lower_digit, upper_digit, hex_lower, hex_upper, hex_value, skip_spaces, read_digits, read_number,
  read_prefixed, read_signed, is_space, read_short, extract_hex,
}
use application_aware_resour.Uuid.{
  Uuid, of_hex, bytes_of_hex, print, print_bytes, write, write_bytes, read, read_rounds, uuid_size,
}
use application_aware_resour.Uuid.Order.{IsUuid}

hex_value-lower_digit : (d : ℕ) → d < 16 → hex_value (lower_digit d) ≡ some d
unfolding hex_value lower_digit
hex_value-lower_digit d h = ground arith

hex_value-upper_digit : (d : ℕ) → d < 16 → hex_value (upper_digit d) ≡ some d
unfolding hex_value upper_digit
hex_value-upper_digit d h = ground arith

-- No digit follows.
abbrev pub EndsNumber : List ℕ → Type 0
EndsNumber [] = Unit {0}
EndsNumber (c ∷ cs) = hex_value c ≡ none

read_digits-stop : (n : ℕ) (rest : List ℕ) → EndsNumber rest → read_digits n rest ≡ (n, rest)
unfolding read_digits
read_digits-stop n [] stop = refl
read_digits-stop n (c ∷ cs) stop = rw (stop, read_digits) refl

read_number-two :
    (a b x y : ℕ) (rest : List ℕ)
    → hex_value a ≡ some x
    → hex_value b ≡ some y
    → EndsNumber rest
    → read_number (a ∷ b ∷ rest) ≡ some (x * 16 + y, rest)
unfolding read_number read_digits
read_number-two a b x y rest p q stop =
    rw (p, read_number) (rw (q, read_digits) (rw (read_digits-stop (x * 16 + y) rest stop) refl))

-- A digit is no space, no sign and not the second character of a prefix.
digit_tests :
    (c d : ℕ)
    → hex_value c ≡ some d
    → (is_space c ≡ false)
      × ((c == b'-') ≡ false)
      × ((c == b'+') ≡ false)
      × ((c == b'x' || c == b'X') ≡ false)
unfolding hex_value
digit_tests c d h = (ground arith, ground arith, ground arith, ground arith)

and_false : (b : Bool) → (b && false) ≡ false
and_false true = refl
and_false false = refl

read_signed-two :
    (a b x y : ℕ) (rest : List ℕ)
    → hex_value a ≡ some x
    → hex_value b ≡ some y
    → EndsNumber rest
    → read_signed (skip_spaces (a ∷ b ∷ rest)) ≡ some (false, x * 16 + y, rest)
unfolding read_signed read_prefixed skip_spaces
read_signed-two a b x y rest p q stop =
    let (space, minus, plus, _) = digit_tests a x p in
    rw space (
      rw (minus, read_signed)
        (rw plus (
          rw (digit_tests b y q).3
            (rw (and_false (a == b'0')) (rw (read_number-two a b x y rest p q stop) refl)))))

abbrev digit_sum : ℕ → ℕ
digit_sum b = b / 16 * 16 + b % 16

digit_sum_lem : (b : ℕ) → digit_sum b ≡ b
digit_sum_lem b = omega arith

read_short-hex_lower :
    (b : ℕ) (rest : List ℕ)
    → b < 256
    → EndsNumber rest
    → read_short (hex_lower b ++ rest) ≡ some (b, rest)
unfolding read_short hex_lower
read_short-hex_lower b rest h stop =
    rw
      (read_signed-two (lower_digit (b / 16)) (lower_digit (b % 16)) (b / 16) (b % 16) rest
        (hex_value-lower_digit (b / 16) (omega arith))
        (hex_value-lower_digit (b % 16) (omega arith)) stop)
      (rw (digit_sum_lem b) (rw (le→ltb 65535 b (omega arith)) refl))

extract_hex-hex_upper : (b : ℕ) → b < 256 → extract_hex (hex_upper b) ≡ b
unfolding extract_hex hex_upper
extract_hex-hex_upper b h =
    rw
      (
        read_signed-two (upper_digit (b / 16)) (upper_digit (b % 16)) (b / 16) (b % 16) []
            (hex_value-upper_digit (b / 16) (omega arith))
            (hex_value-upper_digit (b % 16) (omega arith)) tt,
        extract_hex,
      )
      (omega arith)

bytes_of_hex-print_bytes :
    (bs : List ℕ) → All (λ b. b < 256) bs → bytes_of_hex (print_bytes bs) ≡ bs
unfolding bytes_of_hex print_bytes hex_upper
bytes_of_hex-print_bytes [] h = refl
bytes_of_hex-print_bytes (b ∷ bs) (first, rest) =
    let e : extract_hex (upper_digit (b / 16) ∷ upper_digit (b % 16) ∷ []) % 2 ^ 8 ≡ b =
      omega (arith, extract_hex-hex_upper b first) in
    rw e (ap (λ xs. b ∷ xs) (bytes_of_hex-print_bytes bs rest))

length-print_bytes : (bs : List ℕ) → length (print_bytes bs) ≡ length bs * 2
unfolding print_bytes hex_upper
length-print_bytes [] = refl
length-print_bytes (b ∷ bs) = omega (arith, length-print_bytes bs)

-- An identifier of 16 bytes is made again from the text that it prints.
pub of_hex-print : (u : Uuid) → IsUuid u → of_hex (print u) ≡ some u
unfolding of_hex print
of_hex-print u h =
    let e : length (print_bytes u.value) ≡ 32 = omega (arith, length-print_bytes u.value, h.size) in
    rw e (rw (bytes_of_hex-print_bytes u.value h.bytes) refl)

-- What stands behind the first byte.
dotted : List ℕ → List ℕ
dotted [] = []
dotted (b ∷ bs) = b'.' ∷ hex_lower b ++ dotted bs

write_bytes-dotted : (b : ℕ) (bs : List ℕ) → write_bytes (b ∷ bs) ≡ hex_lower b ++ dotted bs
unfolding write_bytes dotted
write_bytes-dotted b [] = sym (append-nil (hex_lower b))
write_bytes-dotted b (c ∷ bs) = ap (λ xs. hex_lower b ++ b'.' ∷ xs) (write_bytes-dotted c bs)

dotted-EndsNumber : (bs rest : List ℕ) → EndsNumber rest → EndsNumber (dotted bs ++ rest)
unfolding dotted hex_value
dotted-EndsNumber [] rest stop = stop
dotted-EndsNumber (b ∷ bs) rest stop = refl

read_rounds-dotted :
    (bs rest : List ℕ)
    → All (λ b. b < 256) bs
    → EndsNumber rest
    → read_rounds (length bs) (dotted bs ++ rest) ≡ (bs, some rest)
unfolding read_rounds dotted
read_rounds-dotted [] rest h stop = refl
read_rounds-dotted (b ∷ bs) rest (first, others) stop =
    rw (append_assoc (hex_lower b) (dotted bs) rest) (
      rw
        (
          read_short-hex_lower b (dotted bs ++ rest) first (dotted-EndsNumber bs rest stop),
          read_rounds,
        )
        (rw (le→ltb 255 b (omega arith)) (rw (read_rounds-dotted bs rest others stop) refl)))

drop_whole : (n : ℕ) (xs : List ℕ) → length xs ≡ n → drop n xs ≡ []
drop_whole zero [] e = refl
drop_whole zero (x ∷ xs) e = absurd (omega arith)
drop_whole (suc n) [] e = refl
drop_whole (suc n) (x ∷ xs) e = drop_whole n xs (omega arith)

skip_spaces-hex_lower :
    (b : ℕ) (rest : List ℕ) → b < 256 → skip_spaces (hex_lower b ++ rest) ≡ hex_lower b ++ rest
unfolding hex_lower skip_spaces
skip_spaces-hex_lower b rest h =
    rw (digit_tests _ _ (hex_value-lower_digit (b / 16) (omega arith))).0 refl

read-dotted :
    (b : ℕ) (bs rest : List ℕ) (id : Uuid)
    → b < 256
    → All (λ c. c < 256) bs
    → length bs ≡ 15
    → IsUuid id
    → EndsNumber rest
    → read (hex_lower b ++ (dotted bs ++ rest)) id ≡ (record { value = b ∷ bs }, some rest)
unfolding read
read-dotted b bs rest id first others n hid stop =
    let rounds : read_rounds 15 (dotted bs ++ rest) ≡ (bs, some rest) =
      subst (λ k. read_rounds k (dotted bs ++ rest) ≡ (bs, some rest)) n
        (read_rounds-dotted bs rest others stop) in
    let short = read_short-hex_lower b (dotted bs ++ rest) first (dotted-EndsNumber bs rest stop) in
    rw (skip_spaces-hex_lower b (dotted bs ++ rest) first, read)
      (rw (short, read)
        (rw rounds (
          rw (le→ltb 255 b (omega arith)) (
            rw (drop_whole (length bs + 1) id.value (omega (arith, hid.size)))
              (rw (append-nil bs) refl)))))

-- An identifier of 16 bytes that is written to a stream is read back from it, with what follows it
-- left in the stream, if that does not go on with a hexadecimal digit.
pub read-write :
    (u id : Uuid) (rest : List ℕ)
    → IsUuid u
    → IsUuid id
    → EndsNumber rest
    → read (write u ++ rest) id ≡ (u, some rest)
unfolding read write
read-write u id rest hu hid stop = by_bytes u.value hu.size hu.bytes
  where
    by_bytes :
        (bs : List ℕ)
        → length bs ≡ uuid_size
        → All (λ b. b < 256) bs
        → read (write_bytes bs ++ rest) id ≡ (record { value = bs }, some rest)
    by_bytes [] n h = absurd (omega arith)
    by_bytes (b ∷ bs) n (first, others) = rw (write_bytes-dotted b bs) (
        rw (append_assoc (hex_lower b) (dotted bs) rest)
          (read-dotted b bs rest id first others (omega arith) hid stop))
