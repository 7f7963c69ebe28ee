-- ===== src/Generator/Notify.antt =====
-- What the program and the sending thread share, and the methods that set it under the lock
-- (src/rscmng/traffic_generator.cpp).
use application_aware_resour.Prelude.{ℕ, Bool, true, false, pos}
use application_aware_resour.Codec.{Timespec}

pub data TrafficSourceControl : Type 0 where
  thread_start thread_stop thread_paused : TrafficSourceControl
  thread_transmission thread_transmission_finish_object thread_reconfigure : TrafficSourceControl

-- What the program and the sending thread share.
pub record Control : Type 0 where
  pub traffic_generator_control : TrafficSourceControl
  pub mode_global : ℕ
  pub stop_thread : Bool
  pub global_period_timestamp : Timespec
  pub global_update_period : Bool

-- The constructor, with the `garbage` of the member that it does not initialise.
unfoldable pub initial_control : TrafficSourceControl → Control
initial_control garbage = record {
  traffic_generator_control = garbage;
  mode_global = 0;
  stop_thread = false;
  global_period_timestamp = record { tv_sec = pos 0; tv_nsec = pos 0 };
  global_update_period = false;
}

-- `stop()` up to the join
unfoldable pub stop : Control → Control
stop c = record c {
  traffic_generator_control = TrafficSourceControl.thread_stop;
  stop_thread = true;
}

unfoldable pub notify_generator : TrafficSourceControl → Control → Control
notify_generator state c = record c { traffic_generator_control = state }

unfoldable pub notify_generator_mode_change : TrafficSourceControl → ℕ → Control → Control
notify_generator_mode_change state mode c = record c {
  mode_global = mode;
  traffic_generator_control = state;
}

unfoldable pub notify_generator_timestamp :
    TrafficSourceControl → Timespec → ℕ → Bool → Control → Control
notify_generator_timestamp state timestamp mode update_period c = record c {
  mode_global = mode;
  global_update_period = update_period;
  global_period_timestamp = timestamp;
  traffic_generator_control = state;
}

abbrev pub is_transmission : TrafficSourceControl → Bool
is_transmission TrafficSourceControl.thread_transmission = true
is_transmission _ = false

abbrev pub is_finish_object : TrafficSourceControl → Bool
is_finish_object TrafficSourceControl.thread_transmission_finish_object = true
is_finish_object _ = false

abbrev pub may_send : TrafficSourceControl → Bool
may_send TrafficSourceControl.thread_transmission = true
may_send TrafficSourceControl.thread_transmission_finish_object = true
may_send _ = false
