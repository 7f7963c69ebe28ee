-- ===== src/DataMessage/Header.antt =====
-- The header of a data message in the bytes that it starts.
use application_aware_resour.Prelude.{
  ℕ, [], ◌+◌, ◌^◌, ◌≤◌, ◌<◌, ◌≡◌, refl, ap, ◌∙◌, List, ◌++◌, arith, append_assoc, length, take,
  length-append, take-append, drop-append,
}
use application_aware_resour.Codec.{
  encode, decode, length-encode, decode-encode, encode_timespec, decode_timespec,
  length-encode_timespec, decode-encode_timespec, IsTimespec,
}
use application_aware_resour.DataMessage.{DataMessage, payload_capacity, data_header, bytes_at}

-- The members hold values of their types, and the payload fits its array.
pub record IsDataMessage (m : DataMessage) : Type 0 where
  pub priority : m.priority < 2 ^ 8
  pub source : m.source_id < 2 ^ 32
  pub service : m.service_id < 2 ^ 64
  pub object : m.object_number < 2 ^ 32
  pub fragment : m.fragment_number < 2 ^ 32
  pub total : m.total_fragments < 2 ^ 32
  pub timestamp : IsTimespec m.timestamp
  pub stamp : m.time_stamp < 2 ^ 64
  pub bounded : m.payload_length ≤ payload_capacity
  pub array : length m.payload ≡ payload_capacity

-- A field that stands behind `offset` bytes.
field :
    (whole xs ys zs : List ℕ) (offset size : ℕ)
    → whole ≡ xs ++ (ys ++ zs)
    → length xs ≡ offset
    → length ys ≡ size
    → bytes_at offset size whole ≡ ys
field whole xs ys zs offset size e m n =
    ap (bytes_at offset size) e
    ∙ ap (take size) (drop-append xs (ys ++ zs) offset m)
    ∙ take-append ys zs size n

module _ (m : DataMessage) where
  -- The header up to the fields, one after the other.
  to_priority : List ℕ
  to_priority = encode 1 m.priority

  to_source : List ℕ
  to_source = to_priority ++ encode 4 m.source_id

  to_service : List ℕ
  to_service = to_source ++ encode 8 m.service_id

  to_object : List ℕ
  to_object = to_service ++ encode 4 m.object_number

  to_fragment : List ℕ
  to_fragment = to_object ++ encode 4 m.fragment_number

  to_total : List ℕ
  to_total = to_fragment ++ encode 4 m.total_fragments

  to_timestamp : List ℕ
  to_timestamp = to_total ++ encode_timespec m.timestamp

  grows : (xs : List ℕ) (w v n : ℕ) → length xs ≡ n → length (xs ++ encode w v) ≡ n + w
  grows xs w v n e = omega (arith, length-append xs (encode w v), length-encode w v)

  to_end : List ℕ
  to_end = to_timestamp ++ encode 8 m.time_stamp

  length-to_source : length to_source ≡ 5
  unfolding to_source to_priority
  length-to_source = grows to_priority 4 m.source_id 1 (length-encode 1 m.priority)

  length-to_service : length to_service ≡ 13
  unfolding to_service
  length-to_service = grows to_source 8 m.service_id 5 length-to_source

  length-to_object : length to_object ≡ 17
  unfolding to_object
  length-to_object = grows to_service 4 m.object_number 13 length-to_service

  length-to_fragment : length to_fragment ≡ 21
  unfolding to_fragment
  length-to_fragment = grows to_object 4 m.fragment_number 17 length-to_object

  length-to_total : length to_total ≡ 25
  unfolding to_total
  length-to_total = grows to_fragment 4 m.total_fragments 21 length-to_fragment

  length-to_timestamp : length to_timestamp ≡ 41
  unfolding to_timestamp
  length-to_timestamp = omega (
    arith,
    length-append to_total (encode_timespec m.timestamp),
    length-to_total,
    length-encode_timespec m.timestamp,
  )

  pub length-data_header : length (data_header m) ≡ 49
  unfolding to_priority to_source to_service to_object to_fragment to_total to_timestamp
  length-data_header = grows to_timestamp 8 m.time_stamp 41 length-to_timestamp

  uint_field :
      (whole xs zs : List ℕ) (offset w v : ℕ)
      → whole ≡ xs ++ (encode w v ++ zs)
      → length xs ≡ offset
      → v < 256 ^ w
      → decode (bytes_at offset w whole) ≡ v
  uint_field whole xs zs offset w v e n h =
      ap decode (field whole xs (encode w v) zs offset w e n (length-encode w v))
      ∙ decode-encode w v h

  module _ (v : IsDataMessage m) (rest : List ℕ) where
    abbrev pub datagram : List ℕ
    datagram = data_header m ++ rest

    -- What follows a field.
    after_timestamp : List ℕ
    after_timestamp = encode 8 m.time_stamp ++ rest

    after_total : List ℕ
    after_total = encode_timespec m.timestamp ++ after_timestamp

    after_fragment : List ℕ
    after_fragment = encode 4 m.total_fragments ++ after_total

    after_object : List ℕ
    after_object = encode 4 m.fragment_number ++ after_fragment

    after_service : List ℕ
    after_service = encode 4 m.object_number ++ after_object

    after_source : List ℕ
    after_source = encode 8 m.service_id ++ after_service

    after_priority : List ℕ
    after_priority = encode 4 m.source_id ++ after_source

    pub reads_priority : decode (bytes_at 0 1 datagram) ≡ m.priority
    unfolding to_priority to_source to_service to_object to_fragment to_total to_timestamp
        after_timestamp after_total after_fragment after_object after_service after_source
        after_priority
    reads_priority =
        uint_field datagram [] after_priority 0 1 m.priority (simp append_assoc refl) refl
          v.priority

    pub reads_source : decode (bytes_at 1 4 datagram) ≡ m.source_id
    unfolding to_priority to_source to_service to_object to_fragment to_total to_timestamp
        after_timestamp after_total after_fragment after_object after_service after_source
        after_priority
    reads_source =
        uint_field datagram to_priority after_source 1 4 m.source_id (simp append_assoc refl)
          (length-encode 1 m.priority) v.source

    pub reads_service : decode (bytes_at 5 8 datagram) ≡ m.service_id
    unfolding to_priority to_source to_service to_object to_fragment to_total to_timestamp
        after_timestamp after_total after_fragment after_object after_service after_source
        after_priority
    reads_service =
        uint_field datagram to_source after_service 5 8 m.service_id (simp append_assoc refl)
          length-to_source v.service

    pub reads_object : decode (bytes_at 13 4 datagram) ≡ m.object_number
    unfolding to_priority to_source to_service to_object to_fragment to_total to_timestamp
        after_timestamp after_total after_fragment after_object after_service after_source
        after_priority
    reads_object =
        uint_field datagram to_service after_object 13 4 m.object_number (simp append_assoc refl)
          length-to_service v.object

    pub reads_fragment : decode (bytes_at 17 4 datagram) ≡ m.fragment_number
    unfolding to_priority to_source to_service to_object to_fragment to_total to_timestamp
        after_timestamp after_total after_fragment after_object after_service after_source
        after_priority
    reads_fragment =
        uint_field datagram to_object after_fragment 17 4 m.fragment_number (simp append_assoc refl)
          length-to_object v.fragment

    pub reads_total : decode (bytes_at 21 4 datagram) ≡ m.total_fragments
    unfolding to_priority to_source to_service to_object to_fragment to_total to_timestamp
        after_timestamp after_total after_fragment after_object after_service after_source
        after_priority
    reads_total =
        uint_field datagram to_fragment after_total 21 4 m.total_fragments (simp append_assoc refl)
          length-to_fragment v.total

    pub reads_timestamp : decode_timespec (bytes_at 25 16 datagram) ≡ m.timestamp
    unfolding to_priority to_source to_service to_object to_fragment to_total to_timestamp
        after_timestamp after_total after_fragment after_object after_service after_source
        after_priority
    reads_timestamp =
        ap decode_timespec (
          field datagram to_total (encode_timespec m.timestamp) after_timestamp 25 16
            (simp append_assoc refl) length-to_total (length-encode_timespec m.timestamp))
        ∙ decode-encode_timespec m.timestamp v.timestamp

    pub reads_stamp : decode (bytes_at 41 8 datagram) ≡ m.time_stamp
    unfolding to_priority to_source to_service to_object to_fragment to_total to_timestamp
        after_timestamp after_total after_fragment after_object after_service after_source
        after_priority
    reads_stamp =
        uint_field datagram to_timestamp rest 41 8 m.time_stamp (simp append_assoc refl)
          length-to_timestamp v.stamp
