-- ===== src/Window.antt =====
-- network/recv_window.go: the window that puts messages back in the order of their nonces.
pub mod Receiving
pub mod Inbox
pub mod Slots
pub mod Delivery
pub mod Runs
