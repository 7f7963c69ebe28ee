-- ===== src/Buffer.antt =====
-- `MessageNet_t`, the serialisation buffer (include/rscmng/data_sharing/message_net.hpp).
-- Memory that `new char[n]` leaves indeterminate is an argument, `raw`. Who owns the memory (the
-- flag `allocated` and the destructor) is not modelled.
pub mod Bounds
pub mod Stream
mod Tests
use application_aware_resour.Prelude.{
  ℕ, ◌+◌, ◌%◌, ◌^◌, List, ◌++◌, Option, none, some, length, take, drop, replicate, ltb, leb,
  if◌then◌else◌,
}

-- `rscmng::max_length`
abbrev pub max_length : ℕ
max_length = 1472

pub record Buffer : Type 0 where
  pub buffer : List ℕ
  pub pos : ℕ
  pub max_size : ℕ
  pub length : ℕ

-- The results 0 and -1 of `add` and `read`.
pub data Status : Type 0 where
  success failure : Status

-- `MessageNet_t(uint32_t size)`
unfoldable pub construct : ℕ → List ℕ → Buffer
construct size raw = record { buffer = take size raw; pos = 0; max_size = size; length = 0 }

-- `MessageNet_t()`
unfoldable pub create : List ℕ → Buffer
unfolding construct
create raw = construct max_length raw

-- `MessageNet_t(char* stream, uint32_t size, uint32_t max_size)`: `max_size = max_size` assigns the
-- parameter to itself, so the member keeps the `garbage` of the fresh object.
unfoldable pub wrap : List ℕ → ℕ → ℕ → ℕ → Buffer
wrap stream size max_size garbage = record {
  buffer = stream;
  pos = 0;
  max_size = garbage;
  length = size;
}

-- The copy constructor: only the first `length` bytes are copied into the new memory.
unfoldable pub copy : List ℕ → Buffer → Buffer
copy raw msg = record msg { buffer = take msg.length msg.buffer ++ drop msg.length raw }

-- `memcpy` of `val` to offset `at`, inside the array
abbrev pub splice : List ℕ → ℕ → List ℕ → List ℕ
splice bytes at val = take at bytes ++ val ++ drop (at + length val) bytes

-- `size` is an `unsigned long`, the members are `uint32_t`.
unfoldable pub add : Buffer → List ℕ → Status × Buffer
add b val =
    if ltb ((b.pos + length val) % 2 ^ 64) b.max_size
    then (
      success,
      record b {
        buffer = splice b.buffer b.pos val;
        pos = (b.pos + length val) % 2 ^ 32;
        length = (b.length + length val) % 2 ^ 32;
      },
    )
    else (failure, b)

unfoldable pub update : Buffer → ℕ → Buffer
update b size = record b { pos = size; length = size }

unfoldable pub clear : Buffer → Buffer
clear b = record b { buffer = replicate b.length 0 ++ drop b.length b.buffer; pos = 0; length = 0 }

unfoldable pub reset : Buffer → Buffer
reset b = record b { pos = 0 }

-- `none` is the result -1: the target of the read keeps its value.
unfoldable pub read : Buffer → ℕ → Option (List ℕ) × Buffer
read b size =
    if leb ((b.pos + size) % 2 ^ 64) b.length
    then (some (take size (drop b.pos b.buffer)), record b { pos = (b.pos + size) % 2 ^ 32 })
    else (none, b)
