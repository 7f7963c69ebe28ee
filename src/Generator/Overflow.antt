-- ===== src/Generator/Overflow.antt =====
-- The buffer of the sending thread against what is written to it.
use application_aware_resour.Prelude.{
  ℕ, ◌+◌, ◌-◌, ◌≤◌, ◌≡◌, refl, List, some, arith, length, take, length-append, length-take,
  length-replicate, replicate,
}
use application_aware_resour.Codec.{Timespec}
use application_aware_resour.Config.{ServiceSettings}
use application_aware_resour.DataMessage.{
  DataMessage, payload_capacity, data_header, data_to_net, set_timestamp, timed_data_message,
}
use application_aware_resour.DataMessage.Fragments.{data_to_net-image}
use application_aware_resour.DataMessage.Header.{length-data_header}
use application_aware_resour.Generator.{
  Generator, Parameters, Place, object_message, begin_object, grow, object_bytes,
}
use application_aware_resour.Generator.Objects.{begin_object-begins}

-- With a buffer that is no longer than the message says it is, as the empty one is in front of the
-- first object and the one that such an object leaves, writing the first packet of an object goes 8
-- bytes behind the end of the buffer: the length of the message leaves out the member time_stamp.
pub begin_object_overflow :
    (p : Parameters) (stamp : ℕ) (g : Generator) (s : ServiceSettings) (time_send : Timespec)
    → g.thread.current_settings_ptr ≡ some s
    → length g.thread.data_message_buffer ≤ (object_message p stamp s g).length
    → (g' : Generator) × (m : DataMessage) × (image : List ℕ) × (begin_object p stamp g ≡ some g')
      × (g'.thread.place ≡ Place.sending m (object_bytes s) 0)
      × (data_to_net (set_timestamp time_send m) ≡ some image)
      × (length image ≡ length g'.thread.data_message_buffer + 8)
unfolding object_message timed_data_message set_timestamp grow
begin_object_overflow p stamp g s time_send e short =
    let m = object_message p stamp s g in
    let old : List ℕ = g.thread.data_message_buffer in
    let zeros : List ℕ = replicate (m.length - length old) 0 in
    let fits : m.payload_length ≤ payload_capacity = omega arith in
    (
      _,
      m,
      _,
      begin_object-begins p stamp g s e,
      refl,
      data_to_net-image (set_timestamp time_send m) fits,
      ground (
        arith,
        length-append (data_header (set_timestamp time_send m)) (take m.payload_length m.payload),
        length-data_header (set_timestamp time_send m),
        length-take m.payload_length m.payload,
        length-replicate {A = ℕ} payload_capacity 0,
        length-append old zeros,
        length-replicate {A = ℕ} (m.length - length old) 0,
      ),
    )
