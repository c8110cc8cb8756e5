-- ===== src/Protocol.antt =====
-- POP3Common: the command words, the status words, and the parser of a command line. `Boost` is
-- what the parser calls and the repository does not hold.
pub mod CommandType
pub mod Status
pub mod Boost
pub mod Parser
