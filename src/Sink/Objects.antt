-- ===== src/Sink/Objects.antt =====
-- From the generator to the sink: the fragments of an object, delivered in their order, are logged as
-- that object (src/rscmng/traffic_generator.cpp, src/rscmng/traffic_sink_statistic.cpp).
use application_aware_resour.Prelude.{ℕ, String, ◌+◌, ◌<◌, ◌≡◌, List, [], ◌∷◌, ◌++◌, Option, some}
use application_aware_resour.Codec.{Timespec, IsTimespec}
use application_aware_resour.Channel.{Datagram}
use application_aware_resour.DataMessage.{DataMessage}
use application_aware_resour.DataMessage.Header.{IsDataMessage}
use application_aware_resour.Generator.{Generator}
use application_aware_resour.Sink.{Sink, Frame, Line, lines_of}
use application_aware_resour.Sink.Reception.{IsSink, Prints, first_packet_lines}

-- The datagrams as they arrive, each at its time.
abbrev pub arrive : List Datagram → List Timespec → List (List ℕ × Timespec)
arrive [] times = []
arrive (d ∷ ds) [] = []
arrive (d ∷ ds) (t ∷ ts) = (d.bytes, t) ∷ arrive ds ts

-- The log entries of the fragments from `i` on, by the times of their sending and of their arrival.
abbrev pub frames_of : DataMessage → ℕ → List Timespec → List Timespec → List Frame
frames_of m i [] received = []
frames_of m i (s ∷ ss) [] = []
frames_of m i (s ∷ ss) (r ∷ rs) =
    record {
      received_object_number = m.object_number;
      received_packet_number = i;
      service_id = m.service_id;
      time_start = s;
      time_received = r;
    }
    ∷ frames_of m (i + 1) ss rs

-- The members of the message that every fragment has fit their types.
pub record IsObject (m : DataMessage) (n : ℕ) : Type 0 where
  pub fits :
      (i : ℕ) (t : Timespec)
      → i < n
      → IsTimespec t
      → IsDataMessage (record m { fragment_number = i; timestamp = t })

-- The lines of these frames in the file of every datagram.
abbrev pub lines : String → List Frame → List Line
lines name [] = []
lines name (f ∷ fs) = lines_of name f ++ lines name fs

module _ (print_all : Frame → Option String) (prints : Prints print_all) where
  -- Their lines in the file for the packets of number 1.
  abbrev pub first_lines : List Frame → List String
  first_lines [] = []
  first_lines (f ∷ fs) = first_packet_lines print_all prints f ++ first_lines fs

  -- A sink that has written these frames, and is ready for more.
  record Logs (s : Sink) (frames : List Frame) (result : Option Sink) : Type 0 where
    after : Sink
    returns : result ≡ some after
    valid : IsSink after
    logs : after.log ≡ s.log ++ lines s.local_endpoint_str frames
    logs_all : after.log_all ≡ s.log_all ++ first_lines frames
    named : after.local_endpoint_str ≡ s.local_endpoint_str
