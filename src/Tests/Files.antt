-- ===== src/Tests/Files.antt =====
-- Tests of what is written to disk: antie/src/custody.rs, antie/src/skip_list.rs, antie/src/uncle_sink.rs,
-- tot/src/maildir.rs, and the inbox of antie/src/gateway.rs.
use axiom_carriers.Base.{ℕ, Bool, true, false, Option, none, List, [], ◌∷◌, ◌++◌, ◌≡◌, refl}
use axiom_carriers.Base.Text.{Text, codes, same, starts_with}
use axiom_carriers.Disk.{Bytes, join}
use axiom_carriers.Disk.Publish.{publication, Published, Post}
use axiom_carriers.Disk.Laws.{tmp-new, starts_with-has}
use axiom_carriers.Antie.Custody.{name_is_safe, tmp_path, deposit}
use axiom_carriers.Antie.Custody.Atomic.{tmp_path-apart, deposit-Published}
use axiom_carriers.Antie.UncleSink.{tee, tmp_name, filename}
use axiom_carriers.Antie.Maildir.{Maildir}
use axiom_carriers.Antie.Pull.{IncomingMessage, Funnel}
use axiom_carriers.Tot.Maildir.{Moment, inbox_at, unique_name, deliver}
use axiom_carriers.Tot.Maildir.Laws.{unique_name-plain, deliver-Published}
use axiom_carriers.Tests.{bad_disk}

abbrev session : Text
session = codes "/run/tot/s1"

abbrev elsewhere : Text
elsewhere = codes "/etc/other"

safe_name : name_is_safe (codes "r1.cbor") ≡ true
unfolding name_is_safe axiom_carriers.Base.Text.has axiom_carriers.Base.Text.contains
safe_name = refl

reply_other : same (tmp_path session (codes "r1.cbor")) elsewhere ≡ false
unfolding same join
reply_other = refl

reply_new_other : same (join session (codes "r1.cbor")) elsewhere ≡ false
unfolding same join
reply_new_other = refl

deposit-Published_example :
    let p =
      publication
        (tmp_path session (codes "r1.cbor"))
        (join session (codes "r1.cbor"))
        elsewhere
        (1 ∷ 2 ∷ 3 ∷ [])
        bad_disk
        (tmp_path-apart session (codes "r1.cbor") safe_name)
        reply_other
        reply_new_other in
    Post p
      (λ path e. Published p e × (path ≡ join session (codes "r1.cbor")))
      (deposit session (codes "r1.cbor") (1 ∷ 2 ∷ 3 ∷ []) bad_disk)
deposit-Published_example =
    deposit-Published session (codes "r1.cbor") elsewhere (1 ∷ 2 ∷ 3 ∷ []) bad_disk safe_name
      reply_other reply_new_other refl

cheque_relative : starts_with (codes "ab.cheque") (b'/' ∷ []) ≡ false
unfolding starts_with
cheque_relative = refl

abbrev outbox : Text
outbox = codes "/run/uncle"

tee_other : same (join outbox (tmp_name (codes "1.2"))) elsewhere ≡ false
unfolding same join
tee_other = refl

tee_new_other : same (join outbox (filename (0xAB ∷ []))) elsewhere ≡ false
unfolding same join axiom_carriers.Antie.UncleSink.hex
tee_new_other = refl

abbrev moment : Moment
moment = record { secs = 5; nanos = 6; seq = 7; pid = 8 }

abbrev inbox_dir : Text
inbox_dir = codes "/var/inbox"

inbox_other : same (join (inbox_at inbox_dir).tmp (unique_name moment)) elsewhere ≡ false
unfolding same join unique_name axiom_carriers.Base.Decimal.print
inbox_other = refl

inbox_new_other : same (join (inbox_at inbox_dir).new (unique_name moment)) elsewhere ≡ false
unfolding same join unique_name axiom_carriers.Base.Decimal.print
inbox_new_other = refl

deliver-Published_example :
    let p =
      publication
        (join (inbox_at inbox_dir).tmp (unique_name moment))
        (join (inbox_at inbox_dir).new (unique_name moment))
        elsewhere
        (1 ∷ 2 ∷ 3 ∷ [])
        bad_disk
        (tmp-new inbox_dir (unique_name moment) (starts_with-has _ (unique_name-plain moment)))
        inbox_other
        inbox_new_other in
    Post p (λ _ e. Published p e) (deliver (inbox_at inbox_dir) moment (1 ∷ 2 ∷ 3 ∷ []) bad_disk)
deliver-Published_example =
    deliver-Published inbox_dir elsewhere moment (1 ∷ 2 ∷ 3 ∷ []) bad_disk inbox_other
      inbox_new_other refl

abbrev inbox : Maildir
inbox = record { base = inbox_dir }

abbrev letter : IncomingMessage
letter = record { id = codes "1"; raw = 9 ∷ []; name = codes "a" }

-- A letter and a newsletter that is low in entropy.
abbrev mails : List IncomingMessage
mails = letter ∷ record { id = codes "2"; raw = []; name = codes "b" } ∷ []

abbrev low : Bytes → Bool
low [] = true
low (_ ∷ _) = false

abbrev funnel : Funnel
funnel = record { disk = bad_disk; marks = []; inbox_writes = 0 }
