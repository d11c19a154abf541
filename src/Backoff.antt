-- ===== src/Backoff.antt =====
-- network/components/backoff: the delays between attempts to reconnect, and the attempts.
pub mod Delay
pub mod Attempts
pub mod Schedule
