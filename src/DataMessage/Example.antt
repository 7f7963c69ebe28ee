-- ===== src/DataMessage/Example.antt =====
-- A fragment for the examples (src/rscmng/messages.cpp).
use application_aware_resour.Prelude.{ℕ, arith, replicate, length-replicate, pos}
use application_aware_resour.DataMessage.{DataMessage, payload_capacity}
use application_aware_resour.DataMessage.Header.{IsDataMessage}

-- A fragment of 1427 bytes
abbrev pub fragment : DataMessage
fragment = record {
  priority = 1;
  source_id = 1;
  service_id = 7;
  object_number = 3;
  fragment_number = 2;
  total_fragments = 5;
  timestamp = record { tv_sec = pos 100; tv_nsec = pos 250 };
  time_stamp = 1000;
  payload_length = 1427;
  header_length = 41;
  length = 1468;
  payload = replicate payload_capacity 0;
}

pub fragment-IsDataMessage : IsDataMessage fragment
fragment-IsDataMessage = record {
  priority = omega arith;
  source = omega arith;
  service = omega arith;
  object = omega arith;
  fragment = omega arith;
  total = omega arith;
  timestamp = ((omega arith, omega arith), (omega arith, omega arith));
  stamp = omega arith;
  bounded = omega arith;
  array = length-replicate {A = ℕ} payload_capacity 0;
}
