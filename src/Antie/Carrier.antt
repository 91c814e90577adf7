-- ===== src/Antie/Carrier.antt =====
-- antie/src/carrier.rs: the clients that fetch and send mail, over a connection as they see it.
pub mod Wire
pub mod Pop3
pub mod Imap
pub mod Smtp
pub mod Ends
