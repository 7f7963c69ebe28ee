-- ===== src/Manager/RoundCommands.antt =====
-- What the clients are told in one round of an experiment (include/rscmng/rm/net_layer_rm.tpp, the
-- bodies of the experiment_mode_change_time_triggered methods).
use application_aware_resour.Prelude.{
  ℕ, subst₂, pos, ◌+ℤ◌, ◌/◌, ◌+◌, ◌^◌, ◌<◌, ◌≡◌, refl, [], ◌∷◌, ◌++◌, some, arith, All,
}
use application_aware_resour.Types.{MessageType, IsMessageType, message_type_code, message_type_of}
use application_aware_resour.Codec.{Timespec, IsTimespec}
use application_aware_resour.Payload.Command.{zero_time}
use application_aware_resour.Message.{Message}
use application_aware_resour.Channel.{Endpoint}
use application_aware_resour.Clock.{prepare_timestamp_add}
use application_aware_resour.Clock.Sums.{clock_laws, behind_second}
use application_aware_resour.Map.{Map}
use application_aware_resour.Config.{UnitSettings, ExperimentParameter}
use application_aware_resour.Manager.{Manager, Platform, get_client_address}
use application_aware_resour.Manager.Start.{clock_gettime}
use application_aware_resour.Manager.Experiment.{
  for_clients, reconfigure_at, mc_begin, asynchonous_round_hw, asynchonous_round_sw,
}
use application_aware_resour.Manager.Commands.{
  Receiver, IsReceiver, IsPlatform, Command, reconfigure_command, zero_time-IsTimespec,
}
use application_aware_resour.Manager.Issues.{
  send_time_triggered_synchronous_reconfigure_type-Issues,
}
use application_aware_resour.Manager.Telling.{
  Delivered, Runs, told, HasService, for_services-Runs, Runs-from,
}
use application_aware_resour.Manager.StartCommands.{
  IsInstant, adds-behind_second, prepare_timestamp_add-IsInstant, IsInstant-IsTimespec,
}

-- The milliseconds of the duration that make whole seconds, behind an instant.
abbrev pub seconds_later : Timespec → ℕ → Timespec
seconds_later t duration = record {
  tv_sec = t.tv_sec +ℤ pos (duration / 1000);
  tv_nsec = t.tv_nsec;
}

module _ (r : Receiver) (receiver : IsReceiver r) (platform : Platform)
    (behaves : IsPlatform platform) (config : Map UnitSettings) (address : ℕ → Endpoint)
    (known : (client : ℕ) → get_client_address config client ≡ some (address client))
    (parameters : ExperimentParameter) where
  -- The command of a mode change, at the same times for every client.
  abbrev pub reconfigure_of :
      MessageType → Timespec → Timespec → Timespec → ℕ → ℕ → Message → ℕ → Command
  reconfigure_of type stop reconfig start iterator service_id message mode =
      reconfigure_command type stop reconfig start (address message.source_id) service_id mode
        iterator

  reconfigure_at-Runs :
      (l : Map Message) (type : MessageType) (stop reconfig start : Timespec)
      (iterator service_id : ℕ) (message : Message) (mode : ℕ) (st : Manager)
      → IsMessageType type
      → IsTimespec stop
      → IsTimespec reconfig
      → IsTimespec start
      → iterator < 2 ^ 8
      → st.service_list ≡ l
      → Runs r
          (λ st'. st'.service_list ≡ l)
          (reconfigure_of type stop reconfig start iterator service_id message mode ∷ [])
          st
          (reconfigure_at platform config parameters type stop reconfig start iterator service_id
            message mode st)
  unfolding reconfigure_at
  reconfigure_at-Runs l type stop reconfig start iterator service_id message mode st t a b c low p =
      let issued =
        send_time_triggered_synchronous_reconfigure_type-Issues r receiver platform behaves st type
          stop reconfig start (address message.source_id) service_id mode iterator t a b c low in
      record {
        after = record st { sent = st.sent ++ issued.datagram ∷ [] };
        returns = rw (known message.source_id) issued.returns;
        datagrams = issued.datagram ∷ [];
        sends = refl;
        delivered = unfold Delivered in (issued.delivers, tt);
        keeps = p;
      }

  -- A loop over the clients of a mode change at common times.
  for_clients-Runs :
      (type : MessageType) (stop reconfig start : Timespec) (iterator network_mode : ℕ)
      (st : Manager)
      → IsMessageType type
      → IsTimespec stop
      → IsTimespec reconfig
      → IsTimespec start
      → iterator < 2 ^ 8
      → All HasService st.service_list
      → Runs r
          (λ st'. st'.service_list ≡ st.service_list)
          (told parameters.reconfiguration_map network_mode
            (reconfigure_of type stop reconfig start iterator)
            st.service_list)
          st
          (for_clients platform config parameters network_mode
            (reconfigure_at platform config parameters type stop reconfig start iterator)
            st)
  unfolding for_clients
  for_clients-Runs type stop reconfig start iterator network_mode st t a b c low bounded =
      for_services-Runs r (λ st'. st'.service_list ≡ st.service_list) parameters.reconfiguration_map
        network_mode (reconfigure_at platform config parameters type stop reconfig start iterator)
        (reconfigure_of type stop reconfig start iterator)
        (λ service_id message mode st' _.
          reconfigure_at-Runs st.service_list type stop reconfig start iterator service_id message
            mode st' t a b c low)
        st.service_list st bounded refl

  mc_begin-IsInstant :
      (t : Timespec)
      → parameters.mc_distribution_phase_duration < 2 ^ 32
      → IsInstant (2 ^ 61) t
      → IsInstant (2 ^ 61 + 2 ^ 23) (mc_begin platform config parameters t)
  unfolding mc_begin
  mc_begin-IsInstant t phase v = (omega clock_laws, omega clock_laws, v.2)

  -- The command of a round in hardware: to stop at the instant, and the other times from there.
  abbrev pub commands_hw : (Timespec → ℕ → Timespec) → Timespec → ℕ → ℕ → Message → ℕ → Command
  commands_hw add stop iterator =
      reconfigure_of MessageType.sync_timestamp_reconfigure_hw stop
        (add stop parameters.mc_client_reconfig_offset)
        (add stop (parameters.mc_client_start_offset + parameters.mc_client_reconfig_offset))
        iterator

  mc_begin-seconds_later :
      (t : Timespec)
      → mc_begin platform config parameters t
        ≡ seconds_later t parameters.mc_distribution_phase_duration
  unfolding mc_begin
  mc_begin-seconds_later t = refl

  -- The round in hardware, with the times as the code computes them.
  asynchonous_round_hw-computed :
      (iterator network_mode : ℕ) (st : Manager)
      → IsInstant (2 ^ 61) (platform.clock st.readings)
      → parameters.mc_distribution_phase_duration < 2 ^ 32
      → parameters.mc_client_start_offset + parameters.mc_client_reconfig_offset < 2 ^ 32
      → iterator < 2 ^ 8
      → All HasService st.service_list
      → Runs r
          (λ st'. st'.service_list ≡ st.service_list)
          (told parameters.reconfiguration_map network_mode
            (commands_hw prepare_timestamp_add
              (mc_begin platform config parameters (platform.clock st.readings))
              iterator)
            st.service_list)
          st
          (asynchonous_round_hw platform config parameters iterator network_mode st)
  unfolding asynchonous_round_hw clock_gettime message_type_code message_type_of
  asynchonous_round_hw-computed iterator network_mode st instant phase offsets low bounded =
      let target-IsInstant = mc_begin-IsInstant (platform.clock st.readings) phase instant in
      let time = λ (delay : ℕ) (d : delay < 2 ^ 32).
        IsInstant-IsTimespec (2 ^ 61 + 2 ^ 23 + 2 ^ 23) _ (omega arith)
          (prepare_timestamp_add-IsInstant (2 ^ 61 + 2 ^ 23) _ delay d target-IsInstant) in
      Runs-from r (λ st'. st'.service_list ≡ st.service_list) _ st _ _ refl
        (for_clients-Runs MessageType.sync_timestamp_reconfigure_hw _ _ _ iterator network_mode
          (record st { readings = st.readings + 1 }) (omega arith, refl)
          (IsInstant-IsTimespec (2 ^ 61 + 2 ^ 23) _ (omega arith) target-IsInstant)
          (time parameters.mc_client_reconfig_offset (omega arith))
          (time (parameters.mc_client_start_offset + parameters.mc_client_reconfig_offset) offsets)
          low bounded)

  -- A round of the experiment for asynchronous objects in hardware returns and tells every
  -- registered service of a client that has a mode in the network mode of three times: to stop when
  -- the whole seconds of the distribution phase have gone by from the reading of the clock on, to
  -- reconfigure its offset behind the start of the second of that stop, and to start both offsets
  -- behind the start of that second. The nanoseconds of the reading are in the stop alone, so that
  -- the reconfiguration may lie before it. Of the mode the low eight bits are told. The clock, the
  -- durations, the counter and the services are in range, every client has an address, and the
  -- buffers have their memory.
  pub asynchonous_round_hw-Runs :
      (iterator network_mode : ℕ) (st : Manager)
      → IsInstant (2 ^ 61) (platform.clock st.readings)
      → parameters.mc_distribution_phase_duration < 2 ^ 32
      → parameters.mc_client_start_offset + parameters.mc_client_reconfig_offset < 2 ^ 32
      → iterator < 2 ^ 8
      → All HasService st.service_list
      → Runs r
          (λ st'. st'.service_list ≡ st.service_list)
          (told parameters.reconfiguration_map network_mode
            (commands_hw behind_second
              (seconds_later (platform.clock st.readings) parameters.mc_distribution_phase_duration)
              iterator)
            st.service_list)
          st
          (asynchonous_round_hw platform config parameters iterator network_mode st)
  asynchonous_round_hw-Runs iterator network_mode st instant phase offsets low bounded =
      subst₂
        (λ (add : Timespec → ℕ → Timespec) (stop : Timespec).
          Runs r (λ st'. st'.service_list ≡ st.service_list)
            (told parameters.reconfiguration_map network_mode (commands_hw add stop iterator)
              st.service_list)
            st (asynchonous_round_hw platform config parameters iterator network_mode st))
        adds-behind_second (mc_begin-seconds_later (platform.clock st.readings))
        (asynchonous_round_hw-computed iterator network_mode st instant phase offsets low bounded)

  -- A round of the experiment for asynchronous objects in software returns and tells every
  -- registered service of a client that has a mode only when to reconfigure; the other two
  -- timestamps are zero. The clock and the durations are in range.
  pub asynchonous_round_sw-Runs :
      (iterator network_mode : ℕ) (st : Manager)
      → IsInstant (2 ^ 61) (platform.clock st.readings)
      → parameters.mc_distribution_phase_duration < 2 ^ 32
      → parameters.mc_client_reconfig_offset < 2 ^ 32
      → iterator < 2 ^ 8
      → All HasService st.service_list
      → Runs r
          (λ st'. st'.service_list ≡ st.service_list)
          (told parameters.reconfiguration_map network_mode
            (reconfigure_of MessageType.sync_timestamp_reconfigure_sw zero_time
              (prepare_timestamp_add
                (mc_begin platform config parameters (platform.clock st.readings))
                parameters.mc_client_reconfig_offset)
              zero_time
              iterator)
            st.service_list)
          st
          (asynchonous_round_sw platform config parameters iterator network_mode st)
  unfolding asynchonous_round_sw clock_gettime message_type_code message_type_of
  asynchonous_round_sw-Runs iterator network_mode st instant phase offset low bounded =
      Runs-from r (λ st'. st'.service_list ≡ st.service_list) _ st _ _ refl
        (for_clients-Runs MessageType.sync_timestamp_reconfigure_sw _ _ _ iterator network_mode
          (record st { readings = st.readings + 1 }) (omega arith, refl) zero_time-IsTimespec
          (IsInstant-IsTimespec (2 ^ 61 + 2 ^ 23 + 2 ^ 23) _ (omega arith) (
            prepare_timestamp_add-IsInstant (2 ^ 61 + 2 ^ 23) _ parameters.mc_client_reconfig_offset
              offset (mc_begin-IsInstant (platform.clock st.readings) phase instant)))
          zero_time-IsTimespec low bounded)
