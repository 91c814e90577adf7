-- ===== src/Tot/Session/Faithful.antt =====
-- tot/src/main.rs, `session_leg`: a session as a whole, with the deposits of antie/src/custody.rs between
-- its steps.
use axiom_carriers.Base.{
  ℕ, false, Option, none, some, List, [], ◌∷◌, ◌≡◌, refl, sym, ap, append-nil, ◌∙◌, arith, All, inl,
  inr, Bool-cases,
}
use axiom_carriers.Base.Text.{Text, same, same_iff}
use axiom_carriers.Base.Result.{Result, ok, err, Result-cases}
use axiom_carriers.Disk.{Bytes, Disk, lookup, join, create, write_all, call, rename}
use axiom_carriers.Disk.Holds.{
  Leaves, create-Leaves, write_all-Leaves, call-files, rename-Leaves, remove_file-Leaves,
}
use axiom_carriers.Tot.Maildir.{Inbox, Moment, unique_name, deliver_as}
use axiom_carriers.Tot.RateLimiter.{RateLimiter}
use axiom_carriers.Tot.Intake.{
  receive, Arrival, Message, binary, close, other, broken, stamped, written, submit,
}
use axiom_carriers.Tot.Session.{
  Session, Ending, Run, went_on, by_message, leg, Event, from_client, tick, deposited, is_reply,
  pump_replies, custody, took, session_loop,
}
use axiom_carriers.Tot.Session.Listing.{IsReply}
use axiom_carriers.Tot.Session.Pumped.{bind-ok, bind-err}
use axiom_carriers.Tot.Session.Genuine.{
  Holds, Genuine, custody-Holds, pump_replies-Genuine, nothing_sent, sent_before,
}

module _ (inbox : Inbox) (path : Text) where
  deliver_as-Leaves :
      (name : Text) (bytes : Bytes) (d : Disk)
      → same (join inbox.tmp name) path ≡ false
      → same (join inbox.new name) path ≡ false
      → Leaves path d (deliver_as inbox name bytes d)
  unfolding deliver_as
  deliver_as-Leaves name bytes d ht hn =
      let tmp = join inbox.tmp name in
      let d1 : Disk = (create tmp d).1 in
      let d2 : Disk = (write_all tmp bytes d1).1 in
      let d3 : Disk = (call d2).1 in
      let d4 : Disk = (rename tmp (join inbox.new name) d3).1 in
      ground (
        arith,
        create-Leaves path tmp d ht,
        write_all-Leaves path tmp bytes d1 ht,
        call-files d2,
        rename-Leaves path tmp (join inbox.new name) d3 ht hn,
        remove_file-Leaves path tmp d4 ht,
        call-files d4,
        call-files (call d4).1,
      )

-- A submission is written outside the session's directory.
abbrev pub IsApart : Inbox → Text → Event → Type 0
IsApart inbox dir (from_client a) =
    (is_reply dir (join inbox.tmp (unique_name a.moment)) ≡ false)
    × (is_reply dir (join inbox.new (unique_name a.moment)) ≡ false)
IsApart inbox dir tick = Unit
IsApart inbox dir (deposited name bytes) = Unit

not_reply : (dir q p : Text) → is_reply dir q ≡ false → IsReply dir p → same q p ≡ false
not_reply dir q p no_reply is = elim (Bool-cases (same q p)) [
  | inl e ↦ absurd (ground (arith, no_reply, is, ap (is_reply dir) ((same_iff q p).0 e)))
  | inr e ↦ e
]

-- A deposit of something that satisfies `P`.
abbrev pub Deposits : (Bytes → Type 0) → Event → Type 0
Deposits P (from_client a) = Unit
Deposits P tick = Unit
Deposits P (deposited name bytes) = P bytes

module _ (P : Bytes → Type 0) (inbox : Inbox) (cap : ℕ) (id dir : Text) where
  written-Leaves :
      (o : Option Bytes) (m : Moment) (d : Disk) (path : Text)
      → same (join inbox.tmp (unique_name m)) path ≡ false
      → same (join inbox.new (unique_name m)) path ≡ false
      → lookup path (written inbox cap (stamped id) o m d).1.files ≡ lookup path d.files
  written-Leaves none m d path ht hn = refl
  written-Leaves (some out) m d path ht hn =
      ground (arith, deliver_as-Leaves inbox path (unique_name m) out d ht hn)

  submit-Leaves :
      (bytes : Bytes) (a : Arrival) (l : RateLimiter) (d : Disk) (path : Text)
      → same (join inbox.tmp (unique_name a.moment)) path ≡ false
      → same (join inbox.new (unique_name a.moment)) path ≡ false
      → lookup path (submit inbox cap (stamped id) bytes a l d).2.files ≡ lookup path d.files
  unfolding submit
  submit-Leaves bytes a l d path ht hn =
      ground (arith, written-Leaves (stamped id bytes) a.moment d path ht hn)

  took-Holds :
      (bytes : Bytes) (a : Arrival) (l : RateLimiter) (s : Session)
      → IsApart inbox dir (from_client a)
      → Holds P dir s.disk.files
      → Holds P dir (took inbox cap id dir bytes a l s).2.disk.files
  took-Holds bytes a l s (ht, hn) h p b is e = h p b is (
      sym (
        submit-Leaves bytes a l s.disk p
          (not_reply dir (join inbox.tmp (unique_name a.moment)) p ht is)
          (not_reply dir (join inbox.new (unique_name a.moment)) p hn is))
      ∙ e)

  went_on-Genuine :
      (more : RateLimiter → Run (Unit {0})) (s : Session)
      (r : Result Ending (Unit {0}) × RateLimiter × Session)
      → r.2.sent ≡ s.sent
      → Holds P dir r.2.disk.files
      → ((l' : RateLimiter) (s' : Session)
          → Holds P dir s'.disk.files
          → Genuine P dir s' (more l' s'))
      → Genuine P dir s (went_on inbox cap id dir more r)
  went_on-Genuine more s (ok u, l', s') kept h later =
      sent_before P dir s (ok u, s') (more l' s') (([], kept ∙ sym (append-nil s.sent), tt), h)
        (later l' s' h)
  went_on-Genuine more s (err e, l', s') kept h later =
      (([], kept ∙ sym (append-nil s.sent), tt), h)

  by_message-Genuine :
      (more : RateLimiter → Run (Unit {0})) (m : Message) (a : Arrival) (l : RateLimiter)
      (s : Session)
      → IsApart inbox dir (from_client a)
      → Holds P dir s.disk.files
      → ((l' : RateLimiter) (s' : Session)
          → Holds P dir s'.disk.files
          → Genuine P dir s' (more l' s'))
      → Genuine P dir s (by_message inbox cap id dir more m a l s)
  by_message-Genuine more (binary bytes) a l s at h later =
      went_on-Genuine more s (took inbox cap id dir bytes a l s) refl (took-Holds bytes a l s at h)
        later
  by_message-Genuine more close a l s at h later = nothing_sent P dir {A = Unit {0}} s (ok tt) h
  by_message-Genuine more other a l s at h later = later l s h
  by_message-Genuine more broken a l s at h later =
      nothing_sent P dir {A = Unit {0}} s (err (leg receive)) h

  -- A session sends to its client nothing but what was deposited in its directory, whole: whatever holds
  -- of the replies that lay there and of all deposits, holds of all that is on the socket, at whatever
  -- call a deposit or a look stops, and however looks, deposits and the client's messages are mixed.
  pub session_loop-Genuine :
      (es : List Event) (l : RateLimiter) (s : Session)
      → All (IsApart inbox dir) es
      → All (Deposits P) es
      → Holds P dir s.disk.files
      → Genuine P dir s (session_loop inbox cap id dir es l s)
  unfolding session_loop
  session_loop-Genuine [] l s apart d h = nothing_sent P dir {A = Unit {0}} s (ok tt) h
  session_loop-Genuine (deposited name bytes ∷ es) l s (_, apart) (pb, d) h =
      let s' : Session = record s { disk = custody dir name bytes s.disk } in
      session_loop-Genuine es l s' apart d (custody-Holds P dir name bytes s.disk pb h)
  session_loop-Genuine (tick ∷ es) l s (_, apart) (_, d) h =
      let g = pump_replies-Genuine P dir s h in
      let s' = (pump_replies dir s).1 in
      let rest = session_loop inbox cap id dir es l in
      elim (Result-cases (pump_replies dir s).0) [
        | inl (u, e) ↦ rw (bind-ok (pump_replies dir) (λ _. rest) s u e) (
            sent_before P dir s (pump_replies dir s) (rest s') g
              (session_loop-Genuine es l s' apart d g.1))
        | inr (x, e) ↦ rw (bind-err (pump_replies dir) (λ _. rest) s x e) g
      ]
  session_loop-Genuine (from_client a ∷ es) l s (at, apart) (_, d) h =
      by_message-Genuine (session_loop inbox cap id dir es) a.message a l s at h
        (λ l' s' h'. session_loop-Genuine es l' s' apart d h')
