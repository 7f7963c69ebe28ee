-- ===== src/Uuid/Hex.antt =====
-- The hexadecimal numbers that the identifiers are written in: what the standard streams and `printf`
-- write for a byte, and what a stream reads with `std::hex`.
use application_aware_resour.Prelude.{
  ℕ, ◌+◌, ◌-◌, ◌*◌, ◌/◌, ◌%◌, ◌^◌, List, [], ◌∷◌, Option, none, some, Bool, true, false, ◌==◌, ◌&&◌,
  ◌||◌, ltb, leb, if◌then◌else◌, ◌>>=◌,
}

-- One digit, in small and in capital letters.
unfoldable pub lower_digit : ℕ → ℕ
lower_digit d = if ltb d 10 then 48 + d else 87 + d

unfoldable pub upper_digit : ℕ → ℕ
upper_digit d = if ltb d 10 then 48 + d else 55 + d

-- A byte with two digits.
unfoldable pub hex_lower : ℕ → List ℕ
unfolding lower_digit
hex_lower b = lower_digit (b / 16) ∷ lower_digit (b % 16) ∷ []

unfoldable pub hex_upper : ℕ → List ℕ
unfolding upper_digit
hex_upper b = upper_digit (b / 16) ∷ upper_digit (b % 16) ∷ []

-- A byte with as many digits as it needs.
unfoldable pub hex_unpadded : ℕ → List ℕ
unfolding hex_lower lower_digit
hex_unpadded b = if ltb b 16 then lower_digit b ∷ [] else hex_lower b

unfoldable pub hex_value : ℕ → Option ℕ
hex_value c =
    if leb b'0' c && leb c b'9'
    then some (c - 48)
    else if leb b'a' c && leb c b'f'
    then some (c - 87)
    else if leb b'A' c && leb c b'F'
    then some (c - 55)
    else none

abbrev pub is_space : ℕ → Bool
is_space c = c == 32 || leb 9 c && leb c 13

unfoldable pub skip_spaces : List ℕ → List ℕ
skip_spaces [] = []
skip_spaces (c ∷ cs) = if is_space c then skip_spaces cs else c ∷ cs

-- The digits from here on, behind a number that was read so far.
unfoldable pub read_digits : ℕ → List ℕ → ℕ × List ℕ
unfolding hex_value
read_digits n [] = (n, [])
read_digits n (c ∷ cs) =
    let more = λ (d : ℕ). read_digits (n * 16 + d) cs in
    elim (hex_value c) [ none ↦ (n, c ∷ cs) | some d ↦ more d ]

-- A number has one digit at least.
unfoldable pub read_number : List ℕ → Option (ℕ × List ℕ)
unfolding hex_value read_digits
read_number [] = none
read_number (c ∷ cs) = elim (hex_value c) [ none ↦ none | some d ↦ some (read_digits d cs) ]

-- A number that `0x` may precede.
unfoldable pub read_prefixed : List ℕ → Option (ℕ × List ℕ)
unfolding read_number
read_prefixed (a ∷ b ∷ cs) =
    if a == b'0' && (b == b'x' || b == b'X') then read_number cs else read_number (a ∷ b ∷ cs)
read_prefixed cs = read_number cs

-- A number that a sign may precede: the sign, the number and the rest.
unfoldable pub read_signed : List ℕ → Option (Bool × ℕ × List ℕ)
unfolding read_prefixed
read_signed [] = none
read_signed (c ∷ cs) =
    if c == b'-'
    then (read_prefixed cs >>= λ (n, rest). some (true, n, rest))
    else if c == b'+'
    then (read_prefixed cs >>= λ (n, rest). some (false, n, rest))
    else (read_prefixed (c ∷ cs) >>= λ (n, rest). some (false, n, rest))

-- `input >> hex` for an `unsigned short`: a negative number wraps, and one that does not fit fails.
unfoldable pub read_short : List ℕ → Option (ℕ × List ℕ)
unfolding read_signed skip_spaces
read_short input = read_signed (skip_spaces input) >>= λ (negative, n, rest).
    if ltb 65535 n then none else some (if negative then (2 ^ 16 - n) % 2 ^ 16 else n, rest)

-- `ss >> byte` for an `unsigned int` from two characters: 0 where they are no number.
unfoldable pub extract_hex : List ℕ → ℕ
unfolding read_signed skip_spaces
extract_hex text = elim (read_signed (skip_spaces text)) [
  | none ↦ 0
  | some (negative, n, rest) ↦ if negative then (2 ^ 32 - n) % 2 ^ 32 else n
]
