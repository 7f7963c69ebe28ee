-- ===== src/Endnode/Ignored.antt =====
-- The mode change of experiment 0 (include/rscmng/rm/net_layer_rm.tpp, send_asynchronous_reconfigure)
-- at the end node.
use application_aware_resour.Message.{Message}
use application_aware_resour.Manager.{Manager}
use application_aware_resour.Endnode.{Endnode}
