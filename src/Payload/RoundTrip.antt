-- ===== src/Payload/RoundTrip.antt =====
-- What a payload class writes, it reads back.
use application_aware_resour.Prelude.{
  ℕ, ◌^◌, ◌<◌, ◌≡◌, ap, ◌∙◌, List, [], ◌++◌, append_assoc, length, ℤ, to_word, of_word, to_word-lt,
  of_word-to_word, IsInt64,
}
use application_aware_resour.Buffer.{Buffer, reset}
use application_aware_resour.Buffer.Stream.{Holds}
use application_aware_resour.Codec.{
  Timespec, IsTimespec, encode, decode, encode_timespec, length-encode, decode-encode,
  length-encode_timespec, put,
}
use application_aware_resour.Codec.Laws.{
  Reads, Writes, Reads-as, Reads-uint, Reads-timespec, Reads-raw, Reads-bind, Reads-last,
  Writes-put, Writes-then, Writes-Reads,
}
use application_aware_resour.Types.{IsRmCommand, rm_command_code, rm_command_of}
use application_aware_resour.Payload.Basic
use application_aware_resour.Payload.Basic.{
  BasicPayload, PeriodicPayload, encode_duration, decode_duration, read_duration,
}
use application_aware_resour.Payload.Command
use application_aware_resour.Payload.Command.{RmPayload, request_size}

-- The members hold values of their types.
pub record IsBasic (p : BasicPayload) : Type 0 where
  pub size : p.object_size < 2 ^ 32
  pub deadline : IsInt64 p.object_deadline

pub record IsPayload (p : RmPayload) : Type 0 where
  pub base : IsBasic p.base
  pub priority : p.data_connection_priority < 2 ^ 32
  pub measurement : p.measurement_id < 2 ^ 32
  pub action : IsRmCommand p.rm_client_action
  pub stop : IsTimespec p.timestamp_stop
  pub reconfig : IsTimespec p.timestamp_reconfig
  pub start : IsTimespec p.timestamp_start
  pub request : length p.resource_request_struct ≡ request_size

Reads-duration : (old z : ℤ) → IsInt64 z → Reads (read_duration old) z 8 (encode_duration z)
Reads-duration old z h =
    Reads-as decode_duration 8 old z (encode_duration z) (length-encode 8 (to_word z))
      (ap of_word (decode-encode 8 (to_word z) (to_word-lt z)) ∙ of_word-to_word z h)

Writes-uint : (w v : ℕ) → Writes (put (encode w v)) w (encode w v)
Writes-uint w v = Writes-put w (encode w v) (length-encode w v)

Writes-timespec : (t : Timespec) → Writes (put (encode_timespec t)) 16 (encode_timespec t)
Writes-timespec t = Writes-put 16 (encode_timespec t) (length-encode_timespec t)

pub basic_image : BasicPayload → List ℕ
basic_image p = encode 4 p.object_size ++ encode_duration p.object_deadline

Writes-basic : (p : BasicPayload) → Writes (Basic.serialize p) 12 (basic_image p)
unfolding Basic.serialize basic_image
Writes-basic p =
    Writes-then _ _ (Writes-uint 4 p.object_size) (Writes-uint 8 (to_word p.object_deadline))

Reads-basic :
    (old p : BasicPayload) → IsBasic p → Reads (Basic.deserialize old) p 12 (basic_image p)
unfolding Basic.deserialize basic_image
Reads-basic old p v =
    Reads-bind _ (Reads-uint 4 _ p.object_size v.size)
      (Reads-last _ (Reads-duration _ p.object_deadline v.deadline))

-- The bytes of a command, in the order of the members.
abbrev pub payload_image : RmPayload → List ℕ
payload_image p =
    basic_image p.base
    ++ encode 4 p.data_connection_priority
    ++ encode 4 p.measurement_id
    ++ encode 4 (rm_command_code p.rm_client_action)
    ++ encode_timespec p.timestamp_stop
    ++ encode_timespec p.timestamp_reconfig
    ++ encode_timespec p.timestamp_start
    ++ p.resource_request_struct

pub Writes-payload :
    (p : RmPayload) → IsPayload p → Writes (Command.serialize p) 136 (payload_image p)
unfolding Command.serialize
Writes-payload p v =
    Writes-then _ _
      (Writes-then _ _
        (Writes-then _ _
          (Writes-then _ _
            (Writes-then _ _
              (Writes-then _ _
                (Writes-then _ _ (Writes-basic p.base) (Writes-uint 4 p.data_connection_priority))
                (Writes-uint 4 p.measurement_id))
              (Writes-uint 4 (rm_command_code p.rm_client_action)))
            (Writes-timespec p.timestamp_stop))
          (Writes-timespec p.timestamp_reconfig))
        (Writes-timespec p.timestamp_start))
      (Writes-put 64 p.resource_request_struct v.request)

pub Reads-payload :
    (old p : RmPayload) → IsPayload p → Reads (Command.deserialize old) p 136 (payload_image p)
unfolding Command.deserialize
Reads-payload old p v =
    let command : Reads _ p.rm_client_action 4 (encode 4 (rm_command_code p.rm_client_action)) =
      Reads-as (λ bytes. rm_command_of (decode bytes)) 4 old.rm_client_action p.rm_client_action _
        (length-encode 4 _) (ap rm_command_of (decode-encode 4 _ v.action.0) ∙ v.action.1) in
    simp append_assoc (
      Reads-bind _ (Reads-basic old.base p.base v.base) (
        Reads-bind _ (Reads-uint 4 _ p.data_connection_priority v.priority) (
          Reads-bind _ (Reads-uint 4 _ p.measurement_id v.measurement) (
            Reads-bind _ command (
              Reads-bind _ (Reads-timespec _ p.timestamp_stop v.stop) (
                Reads-bind _ (Reads-timespec _ p.timestamp_reconfig v.reconfig) (
                  Reads-bind _ (Reads-timespec _ p.timestamp_start v.start)
                    (Reads-last _ (Reads-raw 64 _ p.resource_request_struct v.request)))))))))

-- A command payload whose members fit their types, put into an empty buffer with room for 136 bytes
-- and one more and read back after reset, is the payload that was put in, whatever the object held
-- before.
pub deserialize-serialize :
    (b : Buffer) (old p : RmPayload)
    → Holds b []
    → 136 < b.max_size
    → IsPayload p
    → (Command.deserialize old (reset (Command.serialize p b))).0 ≡ p
deserialize-serialize b old p h room v =
    Writes-Reads b (Writes-payload p v) (Reads-payload old p v) h room

abbrev periodic_image : PeriodicPayload → List ℕ
periodic_image p = basic_image p.base ++ encode_duration p.sample_period

-- The payload of a periodic application whose members fit their types, put into an empty buffer
-- with room for 20 bytes and one more and read back after reset, is the payload that was put in.
pub deserialize_periodic-serialize_periodic :
    (b : Buffer) (old p : PeriodicPayload)
    → Holds b []
    → 20 < b.max_size
    → IsBasic p.base
    → IsInt64 p.sample_period
    → (Basic.deserialize_periodic old (reset (Basic.serialize_periodic p b))).0 ≡ p
unfolding Basic.deserialize_periodic Basic.serialize_periodic
deserialize_periodic-serialize_periodic b old p h room v s =
    Writes-Reads b (Writes-then _ _ (Writes-basic p.base) (Writes-uint 8 (to_word p.sample_period)))
      (Reads-bind _ (Reads-basic old.base p.base v)
        (Reads-last _ (Reads-duration _ p.sample_period s)))
      h room
