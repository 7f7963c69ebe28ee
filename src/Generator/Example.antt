-- ===== src/Generator/Example.antt =====
-- A small generator with one mode, for the examples (src/rscmng/traffic_generator.cpp).
use application_aware_resour.Prelude.{ℕ, ◌+◌, true, false, [], ◌∷◌, some, none, pos}
use application_aware_resour.Codec.{Timespec}
use application_aware_resour.Config.{ServiceSettings, no_settings}
use application_aware_resour.Channel.{Endpoint}
use application_aware_resour.Generator.{Generator, Parameters, Place, Reading}
use application_aware_resour.Generator.Notify.{TrafficSourceControl}

abbrev pub settings : ServiceSettings
settings = record no_settings {
  service_id = 7;
  ip_address = "10.0.0.2";
  port = 6000;
  object_size = 2;
  deadline = 1500;
  service_priority = 1;
  number_packets = 2;
}

abbrev pub parameters : Parameters
parameters = record {
  service_settings_struct = (1, settings) ∷ [];
  client_id = 1;
  auto_traffic_termination = pos 5000;
  resolve = λ address port. record { address = address; port = port };
}

abbrev pub nowhere : Endpoint
nowhere = record { address = ""; port = 0 }

abbrev pub at_second : ℕ → Timespec
at_second n = record { tv_sec = pos n; tv_nsec = pos 250 }

abbrev pub reading : ℕ → Reading
reading n = record { time_now = at_second n; stamp = 1000 + n }

-- The generator before its first object, told to transmit in a mode.
abbrev pub told : ℕ → Generator
told mode = record {
  control = record {
    traffic_generator_control = TrafficSourceControl.thread_transmission;
    mode_global = mode;
    stop_thread = false;
    global_period_timestamp = at_second 100;
    global_update_period = true;
  };
  thread = record {
    current_mode = 0xffff_ffff;
    current_settings_ptr = none;
    traffic_endpoint_target_new = nowhere;
    local_timestamp = at_second 0;
    number_object = 1;
    data_message_buffer = [];
    time_send = at_second 0;
    place = Place.waiting;
    sent = [];
  };
}

-- The same with the settings of mode 1
abbrev pub adopted : Generator
adopted = record (told 1) {
  thread = record (told 1).thread { current_mode = 1; current_settings_ptr = some settings };
}

-- The same, paused
abbrev pub paused : Generator
paused = record (told 1) {
  control = record (told 1).control {
    traffic_generator_control = TrafficSourceControl.thread_paused;
  };
}
