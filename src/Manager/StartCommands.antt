-- ===== src/Manager/StartCommands.antt =====
-- What the clients are told when the traffic starts (include/rscmng/rm/net_layer_rm.tpp,
-- start_network_traffic_synchronous).
use application_aware_resour.Prelude.{
  ℕ, ◌+◌, ◌*◌, ◌/◌, ◌%◌, ◌^◌, ◌<◌, ◌≡◌, refl, ap, ◌∙◌, [], ◌∷◌, ◌++◌, some, arith, pos, ◌≤ℤ◌, All,
  Bool-cases, inl, inr, ltb, ltb_ℤ, ◌-◌, pos_part-le, neg_part-zero, pos_part, ◌*ℤ◌, +ℤ-pos_part,
  -ℤ-pos_part, *ℤ-pos_part, subst, fun_ext,
}
use application_aware_resour.Codec.{Timespec, IsTimespec}
use application_aware_resour.Message.{Message}
use application_aware_resour.Channel.{Endpoint}
use application_aware_resour.Clock.{
  billion, million, prepare_timestamp_add, prepare_timestamp_sub, total_ns, get_round_timestamp,
}
use application_aware_resour.Clock.Sums.{
  IsNormal, clock_laws, behind_second, prepare_timestamp_add-seconds_only,
}
use application_aware_resour.Map.{Map}
use application_aware_resour.Config.{UnitSettings, ExperimentParameter, ServiceSettings}
use application_aware_resour.Manager.{Manager, Platform, get_client_address}
use application_aware_resour.Manager.Start.{
  slot_offset, start_synchronous, start_network_traffic_synchronous, clock_gettime,
}
use application_aware_resour.Manager.Commands.{
  Receiver, IsReceiver, IsPlatform, Command, start_command,
}
use application_aware_resour.Manager.Issues.{send_synchronous_start-Issues}
use application_aware_resour.Manager.Slots.{
  slot_of, IsServices, slot_offset-reads, slot_offset-keeps, slot_offset-IsServices,
}
use application_aware_resour.Manager.Telling.{
  Delivered, Runs, told, HasService, for_services-Runs, Runs-from,
}

-- An instant of the clock: its seconds are bounded, its nanoseconds normal.
abbrev pub IsInstant : ℕ → Timespec → Type 0
IsInstant bound t = (pos 0 ≤ℤ t.tv_sec) × (t.tv_sec ≤ℤ pos bound) × IsNormal t

pub prepare_timestamp_add-seconds :
    (bound : ℕ) (t : Timespec) (delay : ℕ)
    → delay < 2 ^ 32
    → pos 0 ≤ℤ t.tv_sec
    → t.tv_sec ≤ℤ pos bound
    → IsInstant (bound + 2 ^ 23) (prepare_timestamp_add t delay)
unfolding prepare_timestamp_add
prepare_timestamp_add-seconds bound t delay small low high =
    elim (Bool-cases (ltb (delay * million / billion) 1)) [
      | inl e ↦ rw e (omega clock_laws, omega clock_laws, (omega clock_laws, omega clock_laws))
      | inr e ↦ rw e (omega clock_laws, omega clock_laws, (omega clock_laws, omega clock_laws))
    ]

pub prepare_timestamp_add-IsInstant :
    (bound : ℕ) (t : Timespec) (delay : ℕ)
    → delay < 2 ^ 32
    → IsInstant bound t
    → IsInstant (bound + 2 ^ 23) (prepare_timestamp_add t delay)
prepare_timestamp_add-IsInstant bound t delay small v =
    prepare_timestamp_add-seconds bound t delay small v.0 v.1

IsInstant-pos_part :
    (bound : ℕ) (t : Timespec) → IsInstant bound t → pos_part (total_ns t) < (bound + 1) * billion
unfolding total_ns
IsInstant-pos_part bound t v = omega (
  arith,
  +ℤ-pos_part (t.tv_sec *ℤ pos billion) t.tv_nsec,
  *ℤ-pos_part t.tv_sec (pos billion),
  neg_part-zero t.tv_sec v.0,
  pos_part-le t.tv_sec bound v.1,
  pos_part-le t.tv_nsec (billion - 1) (omega (arith, v.2.1)),
)

pub prepare_timestamp_sub-IsInstant :
    (bound : ℕ) (t : Timespec) (delay : ℕ)
    → IsInstant bound t
    → IsInstant bound (prepare_timestamp_sub t delay)
unfolding prepare_timestamp_sub
prepare_timestamp_sub-IsInstant bound t delay v =
    let size = IsInstant-pos_part bound t v in
    let clamped = -ℤ-pos_part (total_ns t) (pos (delay * million)) in
    (omega arith, omega (arith, size, clamped), (omega arith, omega arith))

pub get_round_timestamp-IsInstant :
    (bound : ℕ) (t : Timespec) → IsInstant bound t → IsInstant (bound + 1) (get_round_timestamp t)
unfolding get_round_timestamp
get_round_timestamp-IsInstant bound t v = elim (Bool-cases (ltb_ℤ (pos 0) t.tv_nsec)) [
  | inl e ↦ rw e (omega clock_laws, omega clock_laws, (omega clock_laws, omega clock_laws))
  | inr e ↦ rw e (omega clock_laws, omega clock_laws, (omega clock_laws, omega clock_laws))
]

pub IsInstant-IsTimespec :
    (bound : ℕ) (t : Timespec) → bound < 2 ^ 63 → IsInstant bound t → IsTimespec t
IsInstant-IsTimespec bound t small v =
    ((omega clock_laws, omega clock_laws), (omega clock_laws, omega clock_laws))

-- The manager's map of the services is a map, and reads as `services`.
pub record ReadsAs (services : Map (Map ServiceSettings)) (st : Manager) : Type 0 where
  pub well_formed : IsServices st.rm_client_service_map
  pub slots : (j k : ℕ) → slot_of st.rm_client_service_map j k ≡ slot_of services j k

-- When a service starts in a mode, if the traffic starts at `target_time` and `add` adds the slot.
abbrev pub slot_start :
    (Timespec → ℕ → Timespec) → Map (Map ServiceSettings) → Timespec → ℕ → ℕ → Timespec
slot_start add services target_time service_id mode =
    add target_time (slot_of services (service_id % 2 ^ 32) mode)

-- What the code computes, as the number of milliseconds behind the start of a second.
pub adds-behind_second : prepare_timestamp_add ≡ behind_second
adds-behind_second = fun_ext λ t. fun_ext (prepare_timestamp_add-seconds_only t)

module _ (r : Receiver) (receiver : IsReceiver r) (platform : Platform)
    (behaves : IsPlatform platform) (config : Map UnitSettings) (address : ℕ → Endpoint)
    (known : (client : ℕ) → get_client_address config client ≡ some (address client))
    (parameters : ExperimentParameter) (services : Map (Map ServiceSettings)) where
  -- The command that a service gets.
  abbrev pub start_of : (Timespec → ℕ → Timespec) → Timespec → ℕ → Message → ℕ → Command
  start_of add target_time service_id message mode =
      start_command (slot_start add services target_time service_id mode)
        (address message.source_id) service_id mode

  pub slot_offset-ReadsAs :
      (service_id mode : ℕ) (st : Manager)
      → ReadsAs services st
      → ReadsAs services (slot_offset service_id mode st).1
  slot_offset-ReadsAs service_id mode st p = record {
    well_formed = slot_offset-IsServices service_id mode st p.well_formed;
    slots = λ j k. slot_offset-keeps service_id mode st p.well_formed j k ∙ p.slots j k;
  }

  pub slot_offset-sent :
      (service_id mode : ℕ) (st : Manager) → (slot_offset service_id mode st).1.sent ≡ st.sent
  unfolding slot_offset
  slot_offset-sent service_id mode st = refl

  start_synchronous-Runs :
      (target_time : Timespec) (service_id : ℕ) (message : Message) (mode : ℕ) (st : Manager)
      → IsTimespec (slot_start prepare_timestamp_add services target_time service_id mode)
      → service_id < 2 ^ 64
      → ReadsAs services st
      → Runs r
          (ReadsAs services)
          (start_of prepare_timestamp_add target_time service_id message mode ∷ [])
          st
          (start_synchronous platform config parameters target_time service_id message mode st)
  unfolding start_synchronous
  start_synchronous-Runs target_time service_id message mode st time low p =
      let slot = slot_offset (service_id % 2 ^ 32) mode st in
      let reads : slot.0 ≡ slot_of services (service_id % 2 ^ 32) mode =
        slot_offset-reads (service_id % 2 ^ 32) mode st p.well_formed
        ∙ p.slots (service_id % 2 ^ 32) mode in
      let told_at = slot_start prepare_timestamp_add services target_time service_id mode in
      let st2 : Manager = record slot.1 { rm_active_timestamp_last = told_at } in
      let issued =
        send_synchronous_start-Issues r receiver platform behaves st2 told_at
          (address message.source_id) service_id mode time low in
      let kept = slot_offset-ReadsAs (service_id % 2 ^ 32) mode st p in
      record {
        after = record st2 { sent = st2.sent ++ issued.datagram ∷ [] };
        returns = rw (known message.source_id, reads) issued.returns;
        datagrams = issued.datagram ∷ [];
        sends =
            ap (λ l. l ++ issued.datagram ∷ []) (slot_offset-sent (service_id % 2 ^ 32) mode st);
        delivered = unfold Delivered in (issued.delivers, tt);
        keeps = record { well_formed = kept.well_formed; slots = kept.slots };
      }

  -- The synchronous start, with the times as the code computes them.
  start_network_traffic_synchronous-computed :
      (st : Manager)
      → IsInstant (2 ^ 61) (platform.clock st.readings)
      → parameters.mc_distribution_phase_duration < 2 ^ 32
      → ((j k : ℕ) → slot_of services j k < 2 ^ 32)
      → All HasService st.service_list
      → ReadsAs services st
      → Runs r
          (ReadsAs services)
          (told parameters.startup_mode_map parameters.startup_mode
            (start_of prepare_timestamp_add (
              prepare_timestamp_add
                (get_round_timestamp (platform.clock st.readings))
                parameters.mc_distribution_phase_duration))
            st.service_list)
          st
          (start_network_traffic_synchronous platform config parameters st)
  unfolding start_network_traffic_synchronous clock_gettime
  start_network_traffic_synchronous-computed st instant phase slots bounded p =
      let target_time =
        prepare_timestamp_add (get_round_timestamp (platform.clock st.readings))
          parameters.mc_distribution_phase_duration in
      let target-IsInstant =
        prepare_timestamp_add-IsInstant (2 ^ 61 + 1) _ parameters.mc_distribution_phase_duration
          phase (get_round_timestamp-IsInstant (2 ^ 61) _ instant) in
      let st2 : Manager = record st {
        rm_active_timestamp_last = target_time;
        readings = st.readings + 1;
      } in
      Runs-from r (ReadsAs services) _ st _ _ refl (
        for_services-Runs r (ReadsAs services) parameters.startup_mode_map parameters.startup_mode
          (start_synchronous platform config parameters target_time)
          (start_of prepare_timestamp_add target_time)
          (λ service_id message mode st'.
            start_synchronous-Runs target_time service_id message mode st' (
              IsInstant-IsTimespec (2 ^ 61 + 1 + 2 ^ 23 + 2 ^ 23) _ (omega arith) (
                prepare_timestamp_add-IsInstant (2 ^ 61 + 1 + 2 ^ 23) target_time _
                  (slots (service_id % 2 ^ 32) mode) target-IsInstant)))
          st.service_list st2 bounded (record { well_formed = p.well_formed; slots = p.slots }))

  -- The synchronous start returns and tells every registered service of a client that has a start
  -- mode, in the order of the services and end to end through payload, message and datagram, to
  -- start in the low eight bits of that mode, at this time: the next whole second and the whole
  -- seconds of the distribution phase and of the slot, and then the rest of the slot in
  -- milliseconds. The rest of the phase is left out, so that the start may lie before the end of
  -- the phase. The slot is that of the low 32 bits of the service and of the mode, and no slot is
  -- changed. The clock, the durations, the services and the slots are in range, every client has an
  -- address, and the buffers have their memory.
  pub start_network_traffic_synchronous-Runs :
      (st : Manager)
      → IsInstant (2 ^ 61) (platform.clock st.readings)
      → parameters.mc_distribution_phase_duration < 2 ^ 32
      → ((j k : ℕ) → slot_of services j k < 2 ^ 32)
      → All HasService st.service_list
      → ReadsAs services st
      → Runs r
          (ReadsAs services)
          (told parameters.startup_mode_map parameters.startup_mode
            (start_of behind_second (
              behind_second
                (get_round_timestamp (platform.clock st.readings))
                parameters.mc_distribution_phase_duration))
            st.service_list)
          st
          (start_network_traffic_synchronous platform config parameters st)
  start_network_traffic_synchronous-Runs st instant phase slots bounded p =
      subst
        (λ (add : Timespec → ℕ → Timespec).
          Runs r (ReadsAs services)
            (told parameters.startup_mode_map parameters.startup_mode
              (start_of add (
                add (get_round_timestamp (platform.clock st.readings))
                  parameters.mc_distribution_phase_duration))
              st.service_list)
            st (start_network_traffic_synchronous platform config parameters st))
        adds-behind_second
        (start_network_traffic_synchronous-computed st instant phase slots bounded p)
