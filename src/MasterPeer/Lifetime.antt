-- ===== src/MasterPeer/Lifetime.antt =====
-- A master peer of src/master_peer.c from its start on.
use nose.MasterPeer.{MasterPeer}
