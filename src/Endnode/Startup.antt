-- ===== src/Endnode/Startup.antt =====
-- The first request of the end node.
use application_aware_resour.Buffer.{Buffer}
use application_aware_resour.Client.{Client}
use application_aware_resour.Endnode.{Endnode}
