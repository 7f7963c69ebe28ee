-- ===== src/Buffer/Tests.antt =====
-- Examples for the serialisation buffer (include/rscmng/data_sharing/message_net.hpp).
use application_aware_resour.Prelude.{◌≡◌, refl, arith, [], ◌∷◌, ◌++◌}
use application_aware_resour.Buffer.{Buffer, add, copy}
use application_aware_resour.Buffer.Bounds.{IsValid, add-IsValid}
use application_aware_resour.Buffer.Stream.{Unread, copy-Unread}

abbrev buffer : Buffer
buffer = record { buffer = 1 ∷ 2 ∷ 3 ∷ 9 ∷ 9 ∷ []; pos = 3; max_size = 5; length = 3 }

buffer-IsValid : IsValid buffer
buffer-IsValid = record {
  memory = refl;
  small = omega arith;
  filled = omega arith;
  head = omega arith;
}

add-IsValid_example :
    IsValid (add buffer (7 ∷ [])).1 × ((add buffer (7 ∷ [])).1.pos ≡ (add buffer (7 ∷ [])).1.length)
add-IsValid_example = add-IsValid buffer (7 ∷ []) buffer-IsValid refl (omega arith)

abbrev reader : Buffer
reader = record buffer { pos = 1 }

reader-Unread : Unread reader ((2 ∷ []) ++ 3 ∷ [])
reader-Unread = record {
  valid = record { memory = refl; small = omega arith; filled = omega arith; head = omega arith };
  content = refl;
}

copy-Unread_example : Unread (copy (0 ∷ 0 ∷ 0 ∷ 0 ∷ 0 ∷ []) reader) (2 ∷ 3 ∷ [])
copy-Unread_example = copy-Unread (0 ∷ 0 ∷ 0 ∷ 0 ∷ 0 ∷ []) reader (2 ∷ 3 ∷ []) reader-Unread refl
