-- ===== src/Payload/Basic.antt =====
-- `basic_protocol::BasicPayload`, `basic_protocol::txParam` and their periodic versions.
use application_aware_resour.Prelude.{ℕ, List, ℤ, pos, to_word, of_word, ◌==◌, if◌then◌else◌, eqb_ℤ}
use application_aware_resour.Buffer.{Buffer}
use application_aware_resour.Codec.{encode, decode, put, Reader, ◌>>=◌, return, read_as, read_uint}

-- `std::chrono::nanoseconds`: a 64-bit count
abbrev pub encode_duration : ℤ → List ℕ
encode_duration z = encode 8 (to_word z)

abbrev pub decode_duration : List ℕ → ℤ
decode_duration bytes = of_word (decode bytes)

abbrev pub read_duration : ℤ → Reader ℤ
read_duration = read_as decode_duration 8

pub record BasicPayload : Type 0 where
  pub object_size : ℕ
  pub object_deadline : ℤ

abbrev pub empty_payload : BasicPayload
empty_payload = record { object_size = 0; object_deadline = pos 0 }

-- The constructor with a size and a deadline
unfoldable pub sized_payload : ℕ → ℤ → BasicPayload
sized_payload object_size object_deadline = record {
  object_size = object_size;
  object_deadline = object_deadline;
}

unfoldable pub serialize : BasicPayload → Buffer → Buffer
serialize p b = put (encode_duration p.object_deadline) (put (encode 4 p.object_size) b)

unfoldable pub deserialize : BasicPayload → Reader BasicPayload
deserialize p = do
  object_size ← read_uint 4 p.object_size
  object_deadline ← read_duration p.object_deadline
  return (record { object_size = object_size; object_deadline = object_deadline })

-- The parameter hides the member of the same name, and `object_size = object_size` assigns the
-- parameter to itself. So too in `set_object_deadline`.
unfoldable pub set_object_size : ℕ → BasicPayload → BasicPayload
set_object_size object_size p = p

unfoldable pub set_object_deadline : ℤ → BasicPayload → BasicPayload
set_object_deadline object_deadline p = p

unfoldable pub get_sample_size : BasicPayload → ℕ
get_sample_size p = p.object_size

unfoldable pub get_sample_deadline : BasicPayload → ℤ
get_sample_deadline p = p.object_deadline

-- `aRM_handler` and `nRM_handler`: what the new object that they return holds.
unfoldable pub payload_handler : Reader BasicPayload
unfolding deserialize
payload_handler = deserialize empty_payload

-- `txParam`
pub record TxParam : Type 0 where
  pub fragment_size : ℕ

unfoldable pub sized_tx : ℕ → TxParam
sized_tx f_size = record { fragment_size = f_size }

-- `txParam()`
unfoldable pub empty_tx : TxParam
unfolding sized_tx
empty_tx = sized_tx 0

unfoldable pub set_fragment_size : ℕ → TxParam → TxParam
set_fragment_size f_size t = record t { fragment_size = f_size }

unfoldable pub get_fragment_size : TxParam → ℕ
get_fragment_size t = t.fragment_size

unfoldable pub serialize_tx : TxParam → Buffer → Buffer
serialize_tx t b = put (encode 4 t.fragment_size) b

unfoldable pub deserialize_tx : TxParam → Reader TxParam
deserialize_tx t = do
  fragment_size ← read_uint 4 t.fragment_size
  return (record { fragment_size = fragment_size })

-- `dummy_value` is not initialised: it keeps the garbage that it holds if nothing is left to read.
unfoldable pub update_tx : ℕ → TxParam → Reader TxParam
update_tx garbage t = do
  dummy_value ← read_uint 4 garbage
  return (if dummy_value == 0 then t else record { fragment_size = dummy_value })

-- `basic_periodic_protocol::BasicPayload`
pub record PeriodicPayload : Type 0 where
  pub base : BasicPayload
  pub sample_period : ℤ

unfoldable pub full_periodic : ℕ → ℤ → ℤ → PeriodicPayload
unfolding sized_payload
full_periodic object_size object_deadline s_period = record {
  base = sized_payload object_size object_deadline;
  sample_period = s_period;
}

-- `BasicPayload()` of the periodic protocol
unfoldable pub empty_periodic : PeriodicPayload
empty_periodic = record { base = empty_payload; sample_period = pos 0 }

unfoldable pub set_sample_period : ℤ → PeriodicPayload → PeriodicPayload
set_sample_period s_period p = record p { sample_period = s_period }

unfoldable pub get_sample_period : PeriodicPayload → ℤ
get_sample_period p = p.sample_period

unfoldable pub serialize_periodic : PeriodicPayload → Buffer → Buffer
serialize_periodic p b = put (encode_duration p.sample_period) (serialize p.base b)

unfoldable pub deserialize_periodic : PeriodicPayload → Reader PeriodicPayload
deserialize_periodic p = do
  base ← deserialize p.base
  sample_period ← read_duration p.sample_period
  return (record { base = base; sample_period = sample_period })

-- `basic_periodic_protocol::txParam`
pub record PeriodicTx : Type 0 where
  pub base : TxParam
  pub shaping_time : ℤ

unfoldable pub full_periodic_tx : ℕ → ℤ → PeriodicTx
unfolding sized_tx
full_periodic_tx f_size t_sh = record { base = sized_tx f_size; shaping_time = t_sh }

-- `txParam()` of the periodic protocol
unfoldable pub empty_periodic_tx : PeriodicTx
unfolding empty_tx
empty_periodic_tx = record { base = empty_tx; shaping_time = pos 0 }

unfoldable pub set_shaping_time : ℤ → PeriodicTx → PeriodicTx
set_shaping_time t_sh t = record t { shaping_time = t_sh }

unfoldable pub get_shaping_time : PeriodicTx → ℤ
get_shaping_time t = t.shaping_time

unfoldable pub serialize_periodic_tx : PeriodicTx → Buffer → Buffer
serialize_periodic_tx t b = put (encode_duration t.shaping_time) (serialize_tx t.base b)

unfoldable pub deserialize_periodic_tx : PeriodicTx → Reader PeriodicTx
deserialize_periodic_tx t = do
  base ← deserialize_tx t.base
  shaping_time ← read_duration t.shaping_time
  return (record { base = base; shaping_time = shaping_time })

unfoldable pub update_periodic_tx : ℕ → ℤ → PeriodicTx → Reader PeriodicTx
update_periodic_tx garbage garbage_time t = do
  base ← update_tx garbage t.base
  dummy_value ← read_duration garbage_time
  return (record {
    base = base;
    shaping_time = if eqb_ℤ dummy_value (pos 0) then t.shaping_time else dummy_value;
  })
