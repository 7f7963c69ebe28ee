-- ===== src/Uuid.antt =====
-- `UUID_t`, the identifiers (include/rscmng/attributes/uuid.hpp). The array `value` is a list of 16
-- bytes, a text the list of its characters. A stream is what is left to read; the number formats of
-- the standard streams and of `printf` are those of the C locale. `none` is an exception.
pub mod Hex
pub mod Order
pub mod Text
pub mod Host
mod Tests
use application_aware_resour.Prelude.{
  ℕ, zero, suc, ◌+◌, ◌-◌, ◌*◌, ◌%◌, ◌^◌, List, [], ◌∷◌, ◌++◌, Option, none, some, Bool, true, false,
  ◌==◌, not, take, drop, length, replicate, get_or, ltb, if◌then◌else◌, ◌>>=◌,
}
use application_aware_resour.Uuid.Hex.{
  hex_lower, hex_upper, extract_hex, skip_spaces, read_short, hex_unpadded,
}
use Prim.Native.Nat.{compare, Ordering}
use mathlib.Core.List.{reverse}

abbrev pub uuid_size : ℕ
uuid_size = 16

pub record Uuid : Type 0 where
  pub value : List ℕ

abbrev pub host_id_offset : ℕ
host_id_offset = 2

abbrev pub host_id_len : ℕ
host_id_len = 2

abbrev pub vendor_id_len : ℕ
vendor_id_len = 2

abbrev pub process_id_offset : ℕ
process_id_offset = host_id_offset

abbrev pub process_id_len : ℕ
process_id_len = 6

-- `memcmp` over the whole of two arrays of one length: the order of the first bytes that differ.
unfoldable pub memcmp : List ℕ → List ℕ → Ordering
memcmp [] ys = Ordering.eq
memcmp (x ∷ xs) [] = Ordering.eq
memcmp (x ∷ xs) (y ∷ ys) = elim (compare x y) [
  | Ordering.eq ↦ memcmp xs ys
  | Ordering.lt ↦ Ordering.lt
  | Ordering.gt ↦ Ordering.gt
]

-- `memcmp(…) == 0`
abbrev pub is_zero : Ordering → Bool
is_zero o = elim o [ Ordering.eq ↦ true | _ ↦ false ]

unfoldable pub default_uuid : Uuid
default_uuid = record { value = replicate uuid_size 0xFF }

-- The constructors from an array, which has `size` bytes.
unfoldable pub of_bytes : List ℕ → Uuid
of_bytes val = record { value = take uuid_size val }

-- One byte for each two characters.
unfoldable pub bytes_of_hex : List ℕ → List ℕ
bytes_of_hex [] = []
bytes_of_hex (a ∷ []) = []
bytes_of_hex (a ∷ b ∷ cs) = (extract_hex (a ∷ b ∷ []) % 2 ^ 8) ∷ bytes_of_hex cs

-- The constructor from a text.
unfoldable pub of_hex : List ℕ → Option Uuid
unfolding bytes_of_hex
of_hex hex_string =
    if not (length hex_string == uuid_size * 2)
    then none
    else some (record { value = bytes_of_hex hex_string })

unfoldable pub equal : Uuid → Uuid → Bool
unfolding memcmp
equal u entity_id = is_zero (memcmp u.value entity_id.value)

unfoldable pub not_equal : Uuid → Uuid → Bool
unfolding memcmp
not_equal u entity_id = not (is_zero (memcmp u.value entity_id.value))

unfoldable pub less : Uuid → Uuid → Bool
unfolding memcmp
less u entity_id = elim (memcmp u.value entity_id.value) [ Ordering.lt ↦ true | _ ↦ false ]

unfoldable pub is_on_same_host_as : Uuid → Uuid → Bool
unfolding memcmp
is_on_same_host_as u other_guid = is_zero (
    memcmp (take vendor_id_len (drop host_id_offset u.value))
      (take vendor_id_len (drop host_id_offset other_guid.value)))

unfoldable pub is_on_same_process_as : Uuid → Uuid → Bool
unfolding memcmp
is_on_same_process_as u other_guid = is_zero (
    memcmp (take process_id_len (drop process_id_offset u.value))
      (take process_id_len (drop process_id_offset other_guid.value)))

unfoldable pub get_host : Uuid → ℕ
get_host u =
    (get_or u.value host_id_offset 0 * 2 ^ 8 + get_or u.value (host_id_offset + host_id_len - 1) 0)
    % 2 ^ 16

unfoldable pub get_prefix : Uuid → ℕ
get_prefix u =
    (get_or u.value 0 0 * 2 ^ 24
      + get_or u.value 1 0 * 2 ^ 16
      + get_or u.value 2 0 * 2 ^ 8
      + get_or u.value 3 0)
    % 2 ^ 32

-- The bytes of `val`, which the call leaves reversed, go to the end of the array. The results are
-- the identifier and `val`; more than 16 bytes are written in front of the array.
unfoldable pub overwrite : Uuid → List ℕ → Option (Uuid × List ℕ)
overwrite u val =
    if ltb uuid_size (length val)
    then none
    else some (record { value = take (uuid_size - length val) u.value ++ reverse val }, reverse val)

-- `setw(1)` pads nothing.
unfoldable pub digits_unpadded : List ℕ → List ℕ
unfolding hex_unpadded
digits_unpadded [] = []
digits_unpadded (b ∷ bs) = hex_unpadded b ++ digits_unpadded bs

unfoldable pub get_value : Uuid → List ℕ
unfolding digits_unpadded
get_value u = digits_unpadded u.value

-- What `print` writes, without the end of the line: `%02X` for each byte.
unfoldable pub print_bytes : List ℕ → List ℕ
unfolding hex_upper
print_bytes [] = []
print_bytes (b ∷ bs) = hex_upper b ++ print_bytes bs

unfoldable pub print : Uuid → List ℕ
unfolding print_bytes
print u = print_bytes u.value

-- What `operator <<` writes: two digits for each byte, with dots between them.
unfoldable pub write_bytes : List ℕ → List ℕ
unfolding hex_lower
write_bytes [] = []
write_bytes (b ∷ []) = hex_lower b
write_bytes (b ∷ c ∷ bs) = hex_lower b ++ b'.' ∷ write_bytes (c ∷ bs)

unfoldable pub write : Uuid → List ℕ
unfolding write_bytes
write u = write_bytes u.value

-- The rounds of the loop of `operator >>`: the bytes that are read, and what is left of the stream if
-- all were read. A failure of the stream is an exception, which ends the loop.
unfoldable pub read_rounds : ℕ → List ℕ → List ℕ × Option (List ℕ)
unfolding skip_spaces read_short
read_rounds zero input = ([], some input)
read_rounds (suc n) input = elim (skip_spaces input) [
  | [] ↦ ([], none)
  | ◌∷◌ point r ↦ elim (read_short r) [
    | none ↦ ([], none)
    | some (hex, rest) ↦
        let round = read_rounds n rest in
        if not (point == b'.')
        then ([], none)
        else if ltb 255 hex
        then ([], none)
        else (hex ∷ round.0, round.1)
  ]
]

-- `operator >>`: the identifier, of which a failure leaves the bytes that were not read as they were,
-- and what is left of the stream unless it has failed.
unfoldable pub read : List ℕ → Uuid → Uuid × Option (List ℕ)
unfolding skip_spaces read_short read_rounds
read input id = elim (read_short (skip_spaces input)) [
  | none ↦ (id, none)
  | some (hex, rest) ↦
      let (bytes, left) = read_rounds 15 rest in
      if ltb 255 hex
      then (id, none)
      else (record { value = (hex ∷ bytes) ++ drop (length bytes + 1) id.value }, left)
]
