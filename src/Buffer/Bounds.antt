-- ===== src/Buffer/Bounds.antt =====
-- The invariant of a buffer: no access outside its memory, no wrap of its counters.
use application_aware_resour.Prelude.{
  ℕ, ◌+◌, ◌^◌, ◌≤◌, ◌<◌, ◌≡◌, List, ◌++◌, some, arith, length, take, drop, replicate, length-append,
  length-take, length-drop, length-replicate,
}
use application_aware_resour.Buffer.{
  Buffer, construct, copy, splice, add, update, clear, reset, read,
}

pub record IsValid (b : Buffer) : Type 0 where
  pub memory : b.max_size ≡ length b.buffer
  pub small : b.max_size < 2 ^ 32
  pub filled : b.length ≤ b.max_size
  pub head : b.pos ≤ b.length

pub length-splice :
    (bytes : List ℕ) (at : ℕ) (val : List ℕ)
    → at + length val ≤ length bytes
    → length (splice bytes at val) ≡ length bytes
length-splice bytes at val h = omega (
  arith,
  length-append (take at bytes ++ val) (drop (at + length val) bytes),
  length-append (take at bytes) val,
  length-take at bytes,
  length-drop (at + length val) bytes,
)

pub construct-IsValid :
    (size : ℕ) (raw : List ℕ) → size < 2 ^ 32 → size ≤ length raw → IsValid (construct size raw)
unfolding construct
construct-IsValid size raw h m = ground (arith, length-take size raw)

pub copy-IsValid :
    (raw : List ℕ) (b : Buffer) → IsValid b → length raw ≡ b.max_size → IsValid (copy raw b)
unfolding copy
copy-IsValid raw b v m = ground (
  arith,
  length-append (take b.length b.buffer) (drop b.length raw),
  length-take b.length b.buffer,
  length-drop b.length raw,
)

-- At the end of the data of a buffer within its memory an add of less than 2^32 bytes keeps the
-- buffer within its memory, whether it fits or not, and stays at the end.
pub add-IsValid :
    (b : Buffer) (val : List ℕ)
    → IsValid b
    → b.pos ≡ b.length
    → length val < 2 ^ 32
    → IsValid (add b val).1 × ((add b val).1.pos ≡ (add b val).1.length)
unfolding add
add-IsValid b val v e h = ground (arith, length-splice b.buffer b.pos val)

pub update-IsValid :
    (b : Buffer) (size : ℕ) → IsValid b → size ≤ b.max_size → IsValid (update b size)
unfolding update
update-IsValid b size v h = ground arith

pub clear-IsValid : (b : Buffer) → IsValid b → IsValid (clear b)
unfolding clear
clear-IsValid b v = ground (
  arith,
  length-append (replicate b.length 0) (drop b.length b.buffer),
  length-replicate {A = ℕ} b.length 0,
  length-drop b.length b.buffer,
)

pub reset-IsValid : (b : Buffer) → IsValid b → IsValid (reset b)
unfolding reset
reset-IsValid b v = ground arith

pub read-IsValid : (b : Buffer) (size : ℕ) → IsValid b → size < 2 ^ 32 → IsValid (read b size).1
unfolding read
read-IsValid b size v h = ground arith

-- A read that succeeds hands over as many bytes as were asked for.
pub length-read :
    (b : Buffer) (size : ℕ) {bytes : List ℕ}
    → IsValid b
    → size < 2 ^ 32
    → (read b size).0 ≡ some bytes
    → length bytes ≡ size
unfolding read
length-read b size v h e =
    ground (arith, length-take size (drop b.pos b.buffer), length-drop b.pos b.buffer)
