-- ===== src/Sink/Tests.antt =====
-- Examples for the traffic sink (src/rscmng/traffic_sink_statistic.cpp).
use application_aware_resour.Prelude.{ℕ, refl, List, [], ◌∷◌, some, Option, String}
use application_aware_resour.Codec.{Timespec}
use application_aware_resour.Generator.{Generator, object_message}
use application_aware_resour.Generator.Example.{settings, parameters, at_second, told}
use application_aware_resour.Sink.Objects.{frames_of}
use application_aware_resour.Sink.{Sink, Frame}
use application_aware_resour.Sink.Reception.{Prints}

-- An empty datagram, and one of three bytes
abbrev arrivals : List (List ℕ × Timespec)
arrivals = ([], at_second 101) ∷ (1 ∷ 2 ∷ 3 ∷ [], at_second 102) ∷ []

-- A platform that writes a text whatever it is given.
abbrev print_all : Frame → Option String
print_all f = some "Traffic sink received frame"

abbrev prints : Prints print_all
prints f = ("Traffic sink received frame", refl)

abbrev logged_frames : List Frame
logged_frames =
    frames_of (object_message parameters 1101 settings (told 1)) 0
      (at_second 102 ∷ at_second 104 ∷ []) (at_second 106 ∷ at_second 107 ∷ [])
