-- ===== src/Group/RoundRobin.antt =====
-- The round-robin strategy meets every proxy, so a load-balancing group finds one that is alive.
use clash_flt.Metadata.{Metadata}
