-- ===== src/Antie/Pull/Staged.antt =====
-- antie/src/gateway.rs, `deliver_carrier_messages`: nothing is deleted on the server before it is
-- safe in the inbox.
use axiom_carriers.Base.{Bool, true, false, Option, some, List, [], ◌∷◌, ◌≡◌, ◌⊎◌, All}
use axiom_carriers.Base.Text.{Text, same}
use axiom_carriers.Disk.{Bytes, lookup, join}
use axiom_carriers.Antie.Maildir.{Maildir, new_dir, tmp_dir}
use axiom_carriers.Antie.Pull.{IncomingMessage, Mark, processed, failed, Funnel, is_spam}

abbrev pub rev_onto : List Mark → List Mark → List Mark
rev_onto [] acc = acc
rev_onto (k ∷ ks) acc = rev_onto ks (k ∷ acc)

module _ (inbox : Maildir) (too_low : Option (Bytes → Bool)) where
  abbrev pub place : IncomingMessage → Text
  place m = join (new_dir inbox) m.name

  abbrev pub Kept : IncomingMessage → Funnel → Type 0
  Kept m f = lookup (place m) f.disk.files ≡ some m.raw

  -- A message was given back to the server, or deleted there as spam or with its copy in the inbox.
  abbrev pub Settled : IncomingMessage → Mark → Funnel → Type 0
  Settled m k f =
      (k ≡ failed m.id)
      ⊎ ((k ≡ processed m.id) × ((is_spam inbox too_low too_low m.raw ≡ true) ⊎ Kept m f))

  abbrev pub AllSettled : List IncomingMessage → List Mark → Funnel → Type 0
  AllSettled [] [] f = Unit
  AllSettled [] (_ ∷ _) f = ⊥
  AllSettled (_ ∷ _) [] f = ⊥
  AllSettled (m ∷ ms) (k ∷ ks) f = Settled m k f × AllSettled ms ks f

  -- No later message takes the place of an earlier one: a fresh UUID is in each name.
  abbrev pub Apart : IncomingMessage → IncomingMessage → Type 0
  Apart m x =
      (same (join (tmp_dir inbox) x.name) (place m) ≡ false) × (same (place x) (place m) ≡ false)

  abbrev pub Distinct : List IncomingMessage → Type 0
  Distinct [] = Unit
  Distinct (m ∷ ms) = All (Apart m) ms × Distinct ms
