-- ===== src/Antie.antt =====
-- antie/src: the email gateway.
pub mod CareOf
pub mod Config
pub mod Outbound
pub mod Custody
pub mod SkipList
pub mod UncleSink
pub mod Node
pub mod Response
pub mod Backoff
pub mod Maildir
pub mod Pull
pub mod Dispatch
pub mod Busy
pub mod Witness
pub mod Delivery
pub mod Handlers
pub mod Health
pub mod WalletLimit
pub mod Email
pub mod Carrier
