-- ===== src/DbStateServer.antt =====
-- src/stateserver/DBStateServer.cpp and LoadingObject.cpp: objects of the database that are loaded when needed.
pub mod Messages
pub mod State
pub mod Handlers
pub mod Loading
pub mod Loader
pub mod Activation
pub mod Cached
pub mod Answers
pub mod Keeps
pub mod Activated
pub mod Updated
pub mod Apart
pub mod Others
pub mod Loaded
mod Tests
