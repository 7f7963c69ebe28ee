-- ===== src/Client/Tests.antt =====
-- An example for the registration of a client (src/rscmng/rm_abstraction.cpp).
use application_aware_resour.Prelude.{
  ℕ, refl, arith, List, [], ◌∷◌, some, replicate, length-replicate, pos,
}
use application_aware_resour.Buffer.{Buffer, max_length}
use application_aware_resour.Buffer.Stream.{Holds}
use application_aware_resour.Message.{empty_message}
use application_aware_resour.Channel.Delivery.{IsMemory}
use application_aware_resour.Manager.{Manager}
use application_aware_resour.Map.{find}
use application_aware_resour.Queue.{fresh}
use application_aware_resour.Client.{Client, sync_request}
use application_aware_resour.Client.Registration.{Registers, sync_request-Registers}

abbrev memory : List ℕ
memory = replicate max_length 0

memory-IsMemory : IsMemory memory
memory-IsMemory = length-replicate {A = ℕ} max_length 0

abbrev client : Client
client = record {
  rm_client_id = 1;
  central_rm_address = record { address = "10.0.0.9"; port = 4001 };
  rm_client_out_queue = fresh;
}

abbrev payload : Buffer
payload = record { buffer = 5 ∷ 6 ∷ 0 ∷ []; pos = 2; max_size = 3; length = 2 }

payload-Holds : Holds payload (5 ∷ 6 ∷ [])
payload-Holds = record {
  valid = record { memory = refl; small = omega arith; filled = omega arith; head = omega arith };
  at_end = refl;
  content = refl;
}

abbrev idle : Manager
idle = record {
  service_list = [];
  rm_active_timestamp_last = record { tv_sec = pos 0; tv_nsec = pos 0 };
  rm_client_service_map = [];
  sent = [];
  timers = [];
  readings = 0;
}

sync_request-Registers_example :
    Registers memory memory memory client 7 empty_message idle
      (sync_request memory 1000 client (some payload) 7)
unfolding find
sync_request-Registers_example =
    sync_request-Registers memory memory memory memory 1000 client payload (5 ∷ 6 ∷ []) 7
      empty_message idle memory-IsMemory memory-IsMemory payload-Holds (omega arith)
      (record {
        stamp = omega arith;
        source = omega arith;
        destination = omega arith;
        service = omega arith;
      })
      tt refl
