-- ===== src/Codec/Laws.antt =====
-- Composable laws of the methods that write members to a message and read them back.
use native.Mathlib.Nat.{add_assoc, add-zero}
use application_aware_resour.Prelude.{
  ℕ, ◌+◌, ◌^◌, ◌≤◌, ◌<◌, ◌≡◌, refl, ap, ◌∙◌, List, [], ◌++◌, append_assoc, append-nil, arith,
  length, length-append,
}
use application_aware_resour.Buffer.{Buffer, read, reset}
use application_aware_resour.Buffer.Bounds.{IsValid}
use application_aware_resour.Buffer.Stream.{
  Holds, Unread, advance, add-extend, extend-Holds, read-advance, advance-Unread, reset-Unread,
}
use application_aware_resour.Codec.{
  Timespec, IsTimespec, encode, decode, encode_timespec, decode_timespec, length-encode,
  decode-encode, length-encode_timespec, decode-encode_timespec, Reader, ◌>>=◌, return, read_as,
  read_uint, read_timespec, read_raw, put,
}

-- `m` reads `v` from the `n` bytes `bytes`, whatever follows them.
pub record Reads {A : Type 0} (m : Reader A) (v : A) (n : ℕ) (bytes : List ℕ) : Type 0 where
  pub count : length bytes ≡ n
  pub run :
      (b : Buffer) (ys : List ℕ)
      → Unread b (bytes ++ ys)
      → (m b ≡ (v, advance b n)) × Unread (advance b n) ys

-- `s` adds the `n` bytes `bytes` wherever there is room for them.
pub record Writes (s : Buffer → Buffer) (n : ℕ) (bytes : List ℕ) : Type 0 where
  pub count : length bytes ≡ n
  pub run :
      (b : Buffer) (xs : List ℕ)
      → Holds b xs
      → length xs + n < b.max_size
      → Holds (s b) (xs ++ bytes) × ((s b).max_size ≡ b.max_size)

advance-advance : (b : Buffer) (n k : ℕ) → advance (advance b n) k ≡ advance b (n + k)
advance-advance b n k = ap (λ p. record b { pos = p }) (add_assoc b.pos n k)

pub Reads-as :
    {A : Type 0} (f : List ℕ → A) (n : ℕ) (old v : A) (bytes : List ℕ)
    → length bytes ≡ n
    → f bytes ≡ v
    → Reads (read_as f n old) v n bytes
unfolding read_as
Reads-as f n old v bytes count e = record {
  count = count;
  run = λ b ys u.
      (rw (← count, read-advance b bytes ys u, e), rw (← count) (advance-Unread b bytes ys u));
}

pub Reads-uint : (w old v : ℕ) → v < 256 ^ w → Reads (read_uint w old) v w (encode w v)
Reads-uint w old v h =
    Reads-as decode w old v (encode w v) (length-encode w v) (decode-encode w v h)

pub Reads-timespec :
    (old t : Timespec) → IsTimespec t → Reads (read_timespec old) t 16 (encode_timespec t)
Reads-timespec old t h =
    Reads-as decode_timespec 16 old t (encode_timespec t) (length-encode_timespec t)
      (decode-encode_timespec t h)

pub Reads-raw :
    (n : ℕ) (old bytes : List ℕ) → length bytes ≡ n → Reads (read_raw n old) bytes n bytes
Reads-raw n old bytes h = Reads-as (λ bs. bs) n old bytes bytes h refl

pub Reads-bind :
    {A B : Type 0} {m : Reader A} (f : A → Reader B) {v : A} {w : B} {n k : ℕ} {bs cs : List ℕ}
    → Reads m v n bs
    → Reads (f v) w k cs
    → Reads (m >>= f) w (n + k) (bs ++ cs)
unfolding ◌>>=◌
Reads-bind f {v} {w} {n} {k} {bs} {cs} first second = record {
  count = omega (arith, first.count, second.count, length-append bs cs);
  run = λ b ys u.
      let (e, u') = first.run b (cs ++ ys) (rw append_assoc at u) in
      let (e', u'') = second.run (advance b n) ys u' in
      (rw (e, e', advance-advance b n k), rw (advance-advance b n k) at u'');
}

-- The last read of a method, and what the method makes of it.
pub Reads-last :
    {A B : Type 0} {m : Reader A} (g : A → B) {v : A} {n : ℕ} {bs : List ℕ}
    → Reads m v n bs
    → Reads (m >>= λ a. return (g a)) (g v) n bs
unfolding ◌>>=◌ return
Reads-last g {n = n} {bs} r = record {
  count = r.count;
  run = λ b ys u. let (e, u') = r.run b ys u in (rw e, u');
}

pub Writes-put : (n : ℕ) (val : List ℕ) → length val ≡ n → Writes (put val) n val
unfolding put
Writes-put n val e = record {
  count = e;
  run = λ b xs h fits.
      let fits' : length xs + length val < b.max_size = rw e fits in
      rw (add-extend b xs val h fits', put) (extend-Holds b xs val h fits', refl);
}

pub Writes-then :
    (s t : Buffer → Buffer) {n k : ℕ} {bs cs : List ℕ}
    → Writes s n bs
    → Writes t k cs
    → Writes (λ b. t (s b)) (n + k) (bs ++ cs)
Writes-then s t {n} {k} {bs} {cs} first second = record {
  count = omega (arith, first.count, second.count, length-append bs cs);
  run = λ b xs h fits.
      let (h', size) = first.run b xs h (omega arith) in
      let (h'', size') =
        second.run (s b) (xs ++ bs) h'
          (omega (arith, size, first.count, length-append xs bs, fits)) in
      (rw append_assoc at h'', size' ∙ size);
}

-- A writer and a reader of the same bytes: after a rewind the reader returns what was written.
pub Writes-Reads :
    {A : Type 0} {s : Buffer → Buffer} {m : Reader A} {v : A} {n k : ℕ} {bytes : List ℕ}
    (b : Buffer)
    → Writes s n bytes
    → Reads m v k bytes
    → Holds b []
    → n < b.max_size
    → (m (reset (s b))).0 ≡ v
Writes-Reads {bytes = bytes} b w r h fits =
    let (h', _) = w.run b [] h (omega arith) in
    ap (λ (p : _ × Buffer). p.0) (r.run _ [] (rw append-nil (reset-Unread _ bytes h'))).0

-- `m` goes past `n` bytes, whatever they are, where there are so many.
pub record Skips {A : Type 0} (m : Reader A) (n : ℕ) : Type 0 where
  pub run : (b : Buffer) → IsValid b → b.pos + n ≤ b.length → (m b).1 ≡ advance b n

pub Skips-as : {A : Type 0} (f : List ℕ → A) (n : ℕ) (old : A) → Skips (read_as f n old) n
unfolding read_as read
Skips-as f n old = record { run = λ b v room. ground arith }

pub Skips-return : {A : Type 0} (a : A) → Skips (return a) 0
unfolding return
Skips-return a = record { run = λ b v room. rw add-zero }

pub Skips-bind :
    {A B : Type 0} {m : Reader A} (f : A → Reader B) {n k : ℕ}
    → Skips m n
    → ((a : A) → Skips (f a) k)
    → Skips (m >>= f) (n + k)
unfolding ◌>>=◌
Skips-bind {m = m} f {n} {k} first second = record {
  run = λ b v room.
      let e : (m b).1 ≡ advance b n = first.run b v (omega arith) in
      (second (m b).0).run (m b).1 (rw e (omega (arith, v))) (rw e (omega arith))
      ∙ ap (λ c. advance c k) e
      ∙ advance-advance b n k;
}
