-- ===== src/Buffer/Stream.antt =====
-- What was written to a buffer is what is read from it: a writer `Holds` a list of bytes, a reader
-- has a list of bytes `Unread`.
use application_aware_resour.Prelude.{
  ℕ, ◌+◌, ◌^◌, ◌≤◌, ◌<◌, ◌≡◌, refl, sym, ap, ◌∙◌, List, [], ◌++◌, some, arith, length, take, drop,
  length-append, length-take, length-drop, take-append, drop-append, take-take, drop-take,
  drop-drop,
}
use application_aware_resour.Buffer.{Buffer, success, construct, copy, splice, add, reset, read}
use application_aware_resour.Buffer.Bounds.{IsValid, length-splice, construct-IsValid, copy-IsValid}

-- The bytes between the start and the end of the data.
abbrev pub contents : Buffer → List ℕ
contents b = take b.length b.buffer

pub record Holds (b : Buffer) (xs : List ℕ) : Type 0 where
  pub valid : IsValid b
  pub at_end : b.pos ≡ b.length
  pub content : contents b ≡ xs

pub record Unread (b : Buffer) (ys : List ℕ) : Type 0 where
  pub valid : IsValid b
  pub content : drop b.pos (contents b) ≡ ys

length-contents : (b : Buffer) → IsValid b → length (contents b) ≡ b.length
length-contents b v = omega (arith, length-take b.length b.buffer)

pub Holds-length : (b : Buffer) (xs : List ℕ) → Holds b xs → b.length ≡ length xs
Holds-length b xs h = omega (arith, length-contents b h.valid, ap length h.content)

-- The buffer after a write that fits.
abbrev pub extend : Buffer → List ℕ → Buffer
extend b val = record b {
  buffer = splice b.buffer b.pos val;
  pos = b.pos + length val;
  length = b.length + length val;
}

take-splice :
    (bytes : List ℕ) (at : ℕ) (val : List ℕ)
    → at + length val ≤ length bytes
    → take (at + length val) (splice bytes at val) ≡ take at bytes ++ val
take-splice bytes at val h =
    take-append (take at bytes ++ val) _ _
      (omega (arith, length-append (take at bytes) val, length-take at bytes))

-- A write that stays below `max_size` succeeds, and adds its bytes at the end.
pub add-extend :
    (b : Buffer) (xs val : List ℕ)
    → Holds b xs
    → length xs + length val < b.max_size
    → add b val ≡ (success, extend b val)
unfolding add
add-extend b xs val h fits = ground (arith, Holds-length b xs h)

pub extend-Holds :
    (b : Buffer) (xs val : List ℕ)
    → Holds b xs
    → length xs + length val < b.max_size
    → Holds (extend b val) (xs ++ val)
extend-Holds b xs val h fits =
    let n : b.length ≡ length xs = Holds-length b xs h in
    record {
      valid = omega (arith, h.valid, length-splice b.buffer b.pos val);
      at_end = omega (arith, h.at_end);
      content =
          rw (← h.at_end) (take-splice b.buffer b.pos val (omega arith))
          ∙ ap (λ zs. zs ++ val) (ap (λ k. take k b.buffer) h.at_end ∙ h.content);
    }

-- The buffer after a read that succeeds.
abbrev pub advance : Buffer → ℕ → Buffer
advance b n = record b { pos = b.pos + n }

pub Unread-room : (b : Buffer) (ys : List ℕ) → Unread b ys → b.pos + length ys ≡ b.length
Unread-room b ys u =
    omega (
      arith,
      u.valid,
      ap length u.content,
      length-drop b.pos (contents b),
      length-contents b u.valid,
    )

pub advance-Unread :
    (b : Buffer) (xs ys : List ℕ) → Unread b (xs ++ ys) → Unread (advance b (length xs)) ys
advance-Unread b xs ys u = record {
  valid = omega (arith, u.valid, Unread-room b (xs ++ ys) u, length-append xs ys);
  content =
      sym (drop-drop b.pos (length xs) (b.pos + length xs) (contents b) refl)
      ∙ ap (drop (length xs)) u.content
      ∙ drop-append xs ys (length xs) refl;
}

-- A read of bytes that are left unread in a buffer within its memory returns exactly that and goes
-- past it.
pub read-advance :
    (b : Buffer) (xs ys : List ℕ)
    → Unread b (xs ++ ys)
    → read b (length xs) ≡ (some xs, advance b (length xs))
unfolding read
read-advance b xs ys u =
    let room : b.pos + length (xs ++ ys) ≡ b.length = Unread-room b (xs ++ ys) u in
    let val : take (length xs) (drop b.pos b.buffer) ≡ xs = front in
    ground (arith, val, room, length-append xs ys, u.valid)
  where
    room : b.pos + length (xs ++ ys) ≡ b.length
    room = Unread-room b (xs ++ ys) u

    front : take (length xs) (drop b.pos b.buffer) ≡ xs
    front =
        sym (
          take-take (length xs) (length (xs ++ ys)) (drop b.pos b.buffer)
            (omega (arith, length-append xs ys)))
        ∙ ap (take (length xs))
            (sym (drop-take b.pos (length (xs ++ ys)) b.length b.buffer (sym room)) ∙ u.content)
        ∙ take-append xs ys (length xs) refl

-- Rewinding a writer gives a reader of what it wrote.
pub reset-Unread : (b : Buffer) (xs : List ℕ) → Holds b xs → Unread (reset b) xs
unfolding reset
reset-Unread b xs h = record { valid = omega (arith, h.valid); content = h.content }

pub construct-Holds :
    (size : ℕ) (raw : List ℕ) → size < 2 ^ 32 → size ≤ length raw → Holds (construct size raw) []
unfolding construct
construct-Holds size raw h m = record {
  valid = construct-IsValid size raw h m;
  at_end = refl;
  content = refl;
}

-- A copy of a buffer within its memory has the same bytes to read, in fresh memory of the same
-- size.
pub copy-Unread :
    (raw : List ℕ) (b : Buffer) (ys : List ℕ)
    → Unread b ys
    → length raw ≡ b.max_size
    → Unread (copy raw b) ys
unfolding copy
copy-Unread raw b ys u m = record {
  valid = copy-IsValid raw b u.valid m;
  content =
      ap (drop b.pos)
        (take-append (contents b) (drop b.length raw) b.length (length-contents b u.valid))
      ∙ u.content;
}
