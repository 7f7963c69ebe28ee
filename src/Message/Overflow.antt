-- ===== src/Message/Overflow.antt =====
-- The payload array against the size of a datagram.
use application_aware_resour.Prelude.{
  ℕ, ◌+◌, ◌-◌, ◌%◌, ◌^◌, ◌<◌, ◌≡◌, ◌∙◌, ap, none, arith, drop, length-take, length-drop,
}
use application_aware_resour.Buffer.{Buffer, read}
use application_aware_resour.Buffer.Bounds.{IsValid}
use application_aware_resour.Buffer.Stream.{advance}
use application_aware_resour.Codec.Laws.{Skips, Skips-as, Skips-bind, Skips-return}
use application_aware_resour.Message.{
  Message, max_payload, accept, fill, read_header, read_payload, network_to_rm,
}

Skips-header : (old : Message) → Skips (read_header old) 34
unfolding read_header
Skips-header old = Skips-bind _ (Skips-as _ 4 _) λ type. Skips-bind _ (Skips-as _ 1 _) λ priority.
    Skips-bind _ (Skips-as _ 4 _) λ source. Skips-bind _ (Skips-as _ 4 _) λ destination.
      Skips-bind _ (Skips-as _ 8 _) λ service. Skips-bind _ (Skips-as _ 1 _) λ mode.
        Skips-bind _ (Skips-as _ 8 _)
          λ stamp. Skips-bind _ (Skips-as _ 4 _) λ protocol. Skips-return _

read_payload_overflow :
    (m : Message) (b : Buffer)
    → IsValid b
    → b.pos + max_payload < b.length
    → b.length < 2 ^ 16
    → read_payload m b ≡ none
unfolding read_payload accept fill read
read_payload_overflow m b v long small =
    let size : ℕ = (b.length + 2 ^ 32 - b.pos) % 2 ^ 32 % 2 ^ 16 in
    ground (arith, length-take size (drop b.pos b.buffer), length-drop b.pos b.buffer)

-- A buffer of more than 34 + 1024 bytes and less than 65536, read from its start, makes
-- network_to_rm write behind the end of the array payload.
pub network_to_rm_overflow :
    (old : Message) (b : Buffer)
    → IsValid b
    → b.pos ≡ 0
    → 34 + max_payload < b.length
    → b.length < 2 ^ 16
    → network_to_rm old b ≡ none
unfolding network_to_rm
network_to_rm_overflow old b v start long small =
    let e : (read_header old b).1 ≡ advance b 34 = (Skips-header old).run b v (omega arith) in
    ap (read_payload (read_header old b).0) e
    ∙ read_payload_overflow (read_header old b).0 (advance b 34) (omega (arith, v)) (omega arith)
        (omega arith)
