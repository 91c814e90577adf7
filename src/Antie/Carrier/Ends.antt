-- ===== src/Antie/Carrier/Ends.antt =====
-- antie/src/carrier.rs: a session with a mail server ends.
use axiom_carriers.Base.Text.{Text}
use axiom_carriers.Antie.Carrier.Wire.{Wire}
use axiom_carriers.Antie.Carrier.Pop3
use axiom_carriers.Antie.Carrier.Imap
use axiom_carriers.Antie.Carrier.Imap.Session
