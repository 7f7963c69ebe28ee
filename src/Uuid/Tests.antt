-- ===== src/Uuid/Tests.antt =====
-- Identifiers at concrete inputs.
use application_aware_resour.Prelude.{
  ◌≡◌, ◌≢◌, refl, arith, [], ◌∷◌, ◌++◌, some, none, true, false, replicate, ◌⊎◌,
}
use application_aware_resour.Uuid.{
  Uuid, of_hex, write, read, less, equal, default_uuid, get_value, overwrite, of_bytes,
  is_on_same_process_as, get_prefix, not_equal,
}
use application_aware_resour.Uuid.Order.{IsUuid, less-cases}
use application_aware_resour.Uuid.Text.{read-write}

-- The identifier of the resource manager (include/rscmng/attributes/demonstrator_config.hpp).
abbrev rm_uuid : Uuid
rm_uuid = record { value = 0x01 ∷ 0xDA ∷ replicate 14 0 }

abbrev high : Uuid
high = record { value = replicate 16 0xFF }

abbrev mixed : Uuid
mixed = record { value = 0x01 ∷ 0xDA ∷ 0xA0 ∷ replicate 13 9 }

rm_uuid-IsUuid : IsUuid rm_uuid
rm_uuid-IsUuid = record { size = omega arith; bytes = omega arith }

high-IsUuid : IsUuid high
high-IsUuid = record { size = omega arith; bytes = omega arith }

mixed-IsUuid : IsUuid mixed
mixed-IsUuid = record { size = omega arith; bytes = omega arith }

less-cases_example :
    ((less rm_uuid mixed ≡ true)
      × (less mixed rm_uuid ≡ false)
      × (equal rm_uuid mixed ≡ false)
      × (rm_uuid ≢ mixed))
    ⊎ ((less rm_uuid mixed ≡ false)
        × (less mixed rm_uuid ≡ false)
        × (equal rm_uuid mixed ≡ true)
        × (rm_uuid ≡ mixed))
    ⊎ ((less rm_uuid mixed ≡ false)
        × (less mixed rm_uuid ≡ true)
        × (equal rm_uuid mixed ≡ false)
        × (rm_uuid ≢ mixed))
less-cases_example = less-cases rm_uuid mixed rm_uuid-IsUuid mixed-IsUuid

read-write_example : read (write mixed ++ 32 ∷ []) high ≡ (mixed, some (32 ∷ []))
unfolding read
read-write_example = read-write mixed high (32 ∷ []) mixed-IsUuid high-IsUuid refl

-- Two identifiers with one text, since single digits are not padded.
get_value_same :
    get_value (record { value = 1 ∷ 0x10 ∷ replicate 14 0 })
    ≡ get_value (record { value = 0x11 ∷ 0 ∷ replicate 14 0 })
unfolding get_value
get_value_same = refl

of_bytes-rm : of_bytes (rm_uuid.value ++ 7 ∷ []) ≡ rm_uuid
unfolding of_bytes
of_bytes-rm = refl

overwrite-rm :
    overwrite rm_uuid (3 ∷ 2 ∷ 1 ∷ [])
    ≡ some (record { value = 0x01 ∷ 0xDA ∷ replicate 11 0 ++ 1 ∷ 2 ∷ 3 ∷ [] }, 1 ∷ 2 ∷ 3 ∷ [])
unfolding overwrite
overwrite-rm = refl

get_prefix-rm : get_prefix rm_uuid ≡ 0x01DA0000
unfolding get_prefix
get_prefix-rm = refl

-- The bytes 8 to 11 belong to the process and are not compared.
is_on_same_process_as-rm :
    is_on_same_process_as rm_uuid (record { value = 0x01 ∷ 0xDA ∷ replicate 6 0 ++ replicate 8 1 })
    ≡ true
unfolding is_on_same_process_as
is_on_same_process_as-rm = refl

read_bad :
    read (b'1' ∷ b'2' ∷ b'-' ∷ []) rm_uuid ≡ (record { value = 0x12 ∷ 0xDA ∷ replicate 14 0 }, none)
unfolding read
read_bad = refl

not_equal-default : not_equal default_uuid rm_uuid ≡ true
unfolding not_equal default_uuid
not_equal-default = refl

of_hex_short : of_hex (b'0' ∷ []) ≡ none
unfolding of_hex
of_hex_short = refl
