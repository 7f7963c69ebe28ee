-- ===== src/DataMessage/Fragments.antt =====
-- What a receiver makes of a datagram with a fragment in it.
use application_aware_resour.Prelude.{
  ℕ, ◌+◌, ◌-◌, ◌%◌, ◌^◌, ◌≤◌, ◌≡◌, refl, ap, ◌∙◌, List, ◌++◌, some, arith, length, take,
  length-append, length-take, drop-append, le→leb,
}
use application_aware_resour.Buffer.{splice}
use application_aware_resour.DataMessage.{
  empty_data_message, DataMessage, payload_capacity, data_header, data_to_net, bytes_at,
  net_to_data, read_members,
}
use application_aware_resour.DataMessage.Header.{
  IsDataMessage, length-data_header, reads_priority, reads_source, reads_service, reads_object,
  reads_fragment, reads_total, reads_timestamp, reads_stamp,
}

-- The message that is read from the header of `m` and the bytes behind it, `k` of them the payload.
abbrev pub fragment_read : DataMessage → List ℕ → DataMessage → ℕ → DataMessage
fragment_read m rest old k = record m {
  payload_length = k;
  header_length = old.header_length;
  length = 49 + k;
  payload = splice old.payload 0 (take k rest);
}

module _ (m : DataMessage) (v : IsDataMessage m) (rest : List ℕ) where
  pub net_to_data-header :
      (old : DataMessage) (k : ℕ)
      → old.header_length ≡ 49
      → k ≤ payload_capacity
      → k ≤ length rest
      → net_to_data (data_header m ++ rest) (49 + k) old ≡ some (fragment_read m rest old k)
  unfolding net_to_data read_members
  net_to_data-header old k fresh fits there =
      let size : (49 + k) % 2 ^ 32 ≡ 49 + k = omega arith in
      let count : ((49 + k) + 2 ^ 32 - old.header_length) % 2 ^ 32 ≡ k = omega arith in
      let whole : 49 + k ≤ length (data_header m ++ rest) =
        omega (arith, length-append (data_header m) rest, length-data_header m) in
      let tail : bytes_at 49 k (data_header m ++ rest) ≡ take k rest =
        ap (take k) (drop-append (data_header m) rest 49 (length-data_header m)) in
      rw
        (
          size,
          count,
          le→leb _ _ whole,
          le→leb _ _ fits,
          reads_priority m v rest,
          reads_source m v rest,
          reads_service m v rest,
          reads_object m v rest,
          reads_fragment m v rest,
          reads_total m v rest,
          reads_timestamp m v rest,
          reads_stamp m v rest,
          tail,
        )
        refl

pub data_to_net-image :
    (m : DataMessage)
    → m.payload_length ≤ payload_capacity
    → data_to_net m ≡ some (data_header m ++ take m.payload_length m.payload)
unfolding data_to_net
data_to_net-image m fits = rw (le→leb _ _ fits) refl

-- A data message whose members fit their types and whose payload fits its array, written to memory
-- and read back into a fresh object with the number of bytes that were written, is read as it was
-- written: the members of the header, and the payload at the start of the array.
pub net_to_data-data_to_net :
    (m : DataMessage) (garbage : ℕ)
    → IsDataMessage m
    → (image : List ℕ) × (data_to_net m ≡ some image)
      × (net_to_data image (length image) (empty_data_message garbage)
          ≡ some (
              fragment_read m
                (take m.payload_length m.payload)
                (empty_data_message garbage)
                m.payload_length))
unfolding empty_data_message
net_to_data-data_to_net m garbage v =
    let used : List ℕ = take m.payload_length m.payload in
    let count : length used ≡ m.payload_length =
      omega (arith, length-take m.payload_length m.payload, v.array, v.bounded) in
    let whole : length (data_header m ++ used) ≡ 49 + m.payload_length =
      omega (arith, length-append (data_header m) used, length-data_header m) in
    (
      data_header m ++ used,
      data_to_net-image m v.bounded,
      ap (λ n. net_to_data (data_header m ++ used) n (empty_data_message garbage)) whole
          ∙ net_to_data-header m v used (empty_data_message garbage) m.payload_length refl v.bounded
              (omega arith),
    )
