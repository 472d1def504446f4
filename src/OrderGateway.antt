-- ===== src/OrderGateway.antt =====
-- What a gateway keeps of the requests that it sent and of the reports that it received.
pub mod PendingResponses
pub mod ClOrdIdIndex
pub mod RetransmitRing
pub mod OrderStore
pub mod MessageParser
pub mod FixParser
