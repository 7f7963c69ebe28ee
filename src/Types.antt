-- ===== src/Types.antt =====
-- The enumerations that travel in messages: include/rscmng/messages.hpp (`MessageTypes`, without the
-- prefix `RM_CLIENT_`), protocols/protocols.hpp and protocols/rm_wired_payload.hpp. A value that was
-- read from the network need not be an enumerator; `other` is such a value.
use application_aware_resour.Prelude.{ℕ, ◌^◌, ◌<◌, ◌≡◌, List, [], ◌∷◌, get_or}

pub data MessageType : Type 0 where
  noop error_interface start stop pause reconfigure_hw reconfigure_sw exit : MessageType
  sync_timestamp_start sync_timestamp_stop sync_timestamp_pause sync_timestamp_reconfigure :
      MessageType
  sync_timestamp_reconfigure_hw sync_timestamp_reconfigure_sw : MessageType
  sync_timestamp_reconfigure_sync_object_hw sync_timestamp_reconfigure_sync_object_sw : MessageType
  sync_timestamp_exit sync_request sync_receive sync_reconfigure_done release : MessageType
  other : ℕ → MessageType

abbrev pub message_type_enumerators : List MessageType
message_type_enumerators =
    MessageType.noop ∷ MessageType.error_interface ∷ MessageType.start ∷ MessageType.stop
    ∷ MessageType.pause ∷ MessageType.reconfigure_hw ∷ MessageType.reconfigure_sw ∷ MessageType.exit
    ∷ MessageType.sync_timestamp_start ∷ MessageType.sync_timestamp_stop
    ∷ MessageType.sync_timestamp_pause ∷ MessageType.sync_timestamp_reconfigure
    ∷ MessageType.sync_timestamp_reconfigure_hw ∷ MessageType.sync_timestamp_reconfigure_sw
    ∷ MessageType.sync_timestamp_reconfigure_sync_object_hw
    ∷ MessageType.sync_timestamp_reconfigure_sync_object_sw ∷ MessageType.sync_timestamp_exit
    ∷ MessageType.sync_request ∷ MessageType.sync_receive ∷ MessageType.sync_reconfigure_done
    ∷ MessageType.release ∷ []

-- The number that the compiler gives the enumerator.
unfoldable pub message_type_code : MessageType → ℕ
message_type_code MessageType.noop = 0
message_type_code MessageType.error_interface = 1
message_type_code MessageType.start = 2
message_type_code MessageType.stop = 3
message_type_code MessageType.pause = 4
message_type_code MessageType.reconfigure_hw = 5
message_type_code MessageType.reconfigure_sw = 6
message_type_code MessageType.exit = 7
message_type_code MessageType.sync_timestamp_start = 8
message_type_code MessageType.sync_timestamp_stop = 9
message_type_code MessageType.sync_timestamp_pause = 10
message_type_code MessageType.sync_timestamp_reconfigure = 11
message_type_code MessageType.sync_timestamp_reconfigure_hw = 12
message_type_code MessageType.sync_timestamp_reconfigure_sw = 13
message_type_code MessageType.sync_timestamp_reconfigure_sync_object_hw = 14
message_type_code MessageType.sync_timestamp_reconfigure_sync_object_sw = 15
message_type_code MessageType.sync_timestamp_exit = 16
message_type_code MessageType.sync_request = 17
message_type_code MessageType.sync_receive = 18
message_type_code MessageType.sync_reconfigure_done = 19
message_type_code MessageType.release = 20
message_type_code (MessageType.other n) = n

unfoldable pub message_type_of : ℕ → MessageType
message_type_of n = get_or message_type_enumerators n (MessageType.other n)

-- The four bytes of the object hold the value, and stand for no other.
abbrev pub IsMessageType : MessageType → Type 0
IsMessageType t = (message_type_code t < 2 ^ 32) × (message_type_of (message_type_code t) ≡ t)

pub data ProtocolId : Type 0 where
  protocol_none basic basic_period rm_basic : ProtocolId
  other : ℕ → ProtocolId

abbrev pub protocol_id_enumerators : List ProtocolId
protocol_id_enumerators =
    ProtocolId.protocol_none ∷ ProtocolId.basic ∷ ProtocolId.basic_period ∷ ProtocolId.rm_basic ∷ []

-- The number that the compiler gives the enumerator.
unfoldable pub protocol_id_code : ProtocolId → ℕ
protocol_id_code ProtocolId.protocol_none = 0
protocol_id_code ProtocolId.basic = 1
protocol_id_code ProtocolId.basic_period = 2
protocol_id_code ProtocolId.rm_basic = 3
protocol_id_code (ProtocolId.other n) = n

unfoldable pub protocol_id_of : ℕ → ProtocolId
protocol_id_of n = get_or protocol_id_enumerators n (ProtocolId.other n)

-- The four bytes of the object hold the value, and stand for no other.
abbrev pub IsProtocolId : ProtocolId → Type 0
IsProtocolId t = (protocol_id_code t < 2 ^ 32) × (protocol_id_of (protocol_id_code t) ≡ t)

pub data RmCommand : Type 0 where
  idle start stop pause reconfigure sync_timestamp_start sync_timestamp_stop : RmCommand
  sync_timestamp_paused sync_timestamp_reconfgure sync_timestamp_reconfgure_soft : RmCommand
  other : ℕ → RmCommand

abbrev pub rm_command_enumerators : List RmCommand
rm_command_enumerators =
    RmCommand.idle ∷ RmCommand.start ∷ RmCommand.stop ∷ RmCommand.pause ∷ RmCommand.reconfigure
    ∷ RmCommand.sync_timestamp_start ∷ RmCommand.sync_timestamp_stop
    ∷ RmCommand.sync_timestamp_paused ∷ RmCommand.sync_timestamp_reconfgure
    ∷ RmCommand.sync_timestamp_reconfgure_soft ∷ []

-- The number that the compiler gives the enumerator.
unfoldable pub rm_command_code : RmCommand → ℕ
rm_command_code RmCommand.idle = 0
rm_command_code RmCommand.start = 1
rm_command_code RmCommand.stop = 2
rm_command_code RmCommand.pause = 3
rm_command_code RmCommand.reconfigure = 4
rm_command_code RmCommand.sync_timestamp_start = 5
rm_command_code RmCommand.sync_timestamp_stop = 6
rm_command_code RmCommand.sync_timestamp_paused = 7
rm_command_code RmCommand.sync_timestamp_reconfgure = 8
rm_command_code RmCommand.sync_timestamp_reconfgure_soft = 9
rm_command_code (RmCommand.other n) = n

unfoldable pub rm_command_of : ℕ → RmCommand
rm_command_of n = get_or rm_command_enumerators n (RmCommand.other n)

-- The four bytes of the object hold the value, and stand for no other.
abbrev pub IsRmCommand : RmCommand → Type 0
IsRmCommand t = (rm_command_code t < 2 ^ 32) × (rm_command_of (rm_command_code t) ≡ t)
