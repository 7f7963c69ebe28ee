-- ===== src/Payload.antt =====
-- The payload classes of the protocols: include/rscmng/protocols/basic_payload.hpp and
-- rm_wired_payload.hpp with src/rscmng/protocol_basic_payload.cpp and
-- protocol_rm_wired_payload.cpp. Printing is left out.
pub mod Basic
pub mod Command
pub mod RoundTrip
