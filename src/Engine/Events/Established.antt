-- ===== src/Engine/Events/Established.antt =====
-- src/fdmi.c: a peer that connects, from RDMA_CM_EVENT_CONNECT_REQUEST to RDMA_CM_EVENT_ESTABLISHED.
use libibtl.Engine.{Engine}
use libibtl.Engine.Arrival.Posted.{Posted}
