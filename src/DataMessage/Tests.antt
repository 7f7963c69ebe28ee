-- ===== src/DataMessage/Tests.antt =====
-- Examples for the data message (src/rscmng/messages.cpp).
use application_aware_resour.Prelude.{ℕ, ◌≡◌, refl, List, some, length, take, pos}
use application_aware_resour.DataMessage.{
  timed_data_message, empty_data_message, data_to_net, net_to_data,
}
use application_aware_resour.DataMessage.Example.{fragment, fragment-IsDataMessage}
use application_aware_resour.DataMessage.Fragments.{fragment_read, net_to_data-data_to_net}

built :
    timed_data_message 1000 1 1 7 3 2 5 1427 (record { tv_sec = pos 100; tv_nsec = pos 250 })
    ≡ fragment
unfolding timed_data_message
built = refl

net_to_data-data_to_net_example :
    (image : List ℕ) × (data_to_net fragment ≡ some image)
    × (net_to_data image (length image) (empty_data_message 0)
        ≡ some (fragment_read fragment (take 1427 fragment.payload) (empty_data_message 0) 1427))
net_to_data-data_to_net_example = net_to_data-data_to_net fragment 0 fragment-IsDataMessage
