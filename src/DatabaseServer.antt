-- ===== src/DatabaseServer.antt =====
-- src/database: the operations of the database server and their queues, over a backend that is not modelled.
pub mod Operation
pub mod Symmetric
pub mod Queue
pub mod Running
pub mod Server
mod Tests
