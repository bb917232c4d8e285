-- ===== src/MessageDirector.antt =====
-- src/messagedirector: the message director, its participants and its link to an upstream director.
pub mod Upstream
pub mod Director
pub mod Routing
pub mod NetworkParticipant
pub mod Control
pub mod Sending
pub mod Keeps
pub mod Handling
pub mod Order
pub mod Flush
pub mod InOrder
pub mod Deliveries
mod Tests
