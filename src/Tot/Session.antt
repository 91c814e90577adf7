-- ===== src/Tot/Session.antt =====
-- tot/src/main.rs, `session_leg`: a client that holds its connection open, with the directory in which
-- its replies arrive.
--
-- A session is the list of what happens to it, in order: something from the client, a tick of the
-- clock that looks for replies, and the deposits that ANTIE makes meanwhile (antie/src/custody.rs).
pub mod Listing
pub mod Pumped
pub mod Genuine
pub mod Faithful
pub mod Cleared
use axiom_carriers.Base.{
  ℕ, Bool, true, false, not, ◌&&◌, ◌||◌, ◌==◌, ltb, if◌then◌else◌, Option, none, some, List, [],
  ◌∷◌, ◌++◌, length,
}
use axiom_carriers.Base.Text.{Text, codes, same, has, starts_with, strip_prefix, rsplit_once}
use axiom_carriers.Base.Result.{Result, ok, err}
use axiom_carriers.Antie.CareOf.{is_empty}
use axiom_carriers.Antie.Custody.{deposit}
use axiom_carriers.Antie.UncleSink.{hex}
use axiom_carriers.Disk.{
  Bytes, Files, Disk, Io, IoError, failed, not_found, lookup, Turn, works, next_turn, advance, show,
  call, remove_file, join, with_separator,
}
use axiom_carriers.Tot.Maildir.{Inbox}
use axiom_carriers.Tot.RateLimiter.{RateLimiter}
use axiom_carriers.Tot.Intake.{
  TotError, receive, Arrival, Message, binary, close, other, broken, stamped, submit,
}

-- What ends a session, beside what ends a leg.
pub data Ending : Type 0 where
  leg : TotError → Ending
  no_entropy no_outbox no_directory unreadable unread_reply unsent : Ending

-- The disk, the replies that are on the socket, and how the next sends go: all work when none is left.
pub record Session : Type 0 where
  pub disk : Disk
  pub sent : List Bytes
  pub sends : List Bool

abbrev pub Run : Type 0 → Type 0
Run A = Session → Result Ending A × Session

infixl 5 ◌>>=◌ ◌>>◌
unfoldable pub ◌>>=◌ : {A B : Type 0} → Run A → (A → Run B) → Run B
◌>>=◌ m f s = let r = m s in elim r.0 [ ok a ↦ f a r.1 | err e ↦ (err e, r.1) ]

abbrev pub ◌>>◌ : {A B : Type 0} → Run A → Run B → Run B
m >> k = m >>= λ _. k

abbrev pub pure : {A : Type 0} → A → Run A
pure a s = (ok a, s)

abbrev pub fail : {A : Type 0} → Ending → Run A
fail e s = (err e, s)

-- A call on the disk, and what its failure means to the session.
abbrev pub on_disk : {A : Type 0} → Ending → Io A → Run A
on_disk e m s =
    let r = m s.disk in
    elim r.0 [ ok a ↦ (ok a, record s { disk = r.1 }) | err _ ↦ (err e, record s { disk = r.1 }) ]

-- The name of a file that stands in the directory itself.
abbrev one_component : Option Text → Option Text
one_component none = none
one_component (some name) = if has b'/' name || is_empty name then none else some name

unfoldable pub name_in : Text → Text → Option Text
unfolding strip_prefix with_separator has
name_in dir path = one_component (strip_prefix path (with_separator dir))

-- `extension() == Some("cbor")`: a name that starts with its only dot has no extension.
abbrev has_cbor : Option (Text × Text) → Bool
has_cbor none = false
has_cbor (some (stem, extension)) = not (is_empty stem) && same extension (codes "cbor")

abbrev is_reply_name : Option Text → Bool
is_reply_name none = false
is_reply_name (some name) = has_cbor (rsplit_once b'.' name)

unfoldable pub is_reply : Text → Text → Bool
unfolding name_in rsplit_once same
is_reply dir path = is_reply_name (name_in dir path)

unfoldable pub replies_in : Text → Files → List Text
unfolding is_reply
replies_in dir [] = []
replies_in dir ((path, _) ∷ files) =
    let rest = replies_in dir files in if is_reply dir path then path ∷ rest else rest

-- The order of paths in one directory: by the characters of their names.
unfoldable pub comes_first : Text → Text → Bool
comes_first [] t = true
comes_first (x ∷ s) [] = false
comes_first (x ∷ s) (y ∷ t) =
    let later = comes_first s t in if ltb x y then true else if x == y then later else false

unfoldable pub put : Text → List Text → List Text
unfolding comes_first
put p [] = p ∷ []
put p (q ∷ qs) = let rest = put p qs in if comes_first p q then p ∷ q ∷ qs else q ∷ rest

unfoldable pub sorted : List Text → List Text
unfolding put
sorted [] = []
sorted (p ∷ ps) = put p (sorted ps)

abbrev pub contents : Option Bytes → Io Bytes
contents none d = (err not_found, d)
contents (some b) d = (ok b, d)

abbrev pub read_turn : Turn → Text → Io Bytes
read_turn (works _) path d = contents (lookup path d.files) (advance d)
read_turn _ path d = (err failed, advance d)

-- `fs::read`
unfoldable pub read_file : Text → Io Bytes
unfolding next_turn lookup
read_file path d = read_turn (next_turn d.turns) path d

abbrev pub went : List Bool → Bytes → Run (Unit {0})
went [] bytes s = (ok tt, record s { sent = s.sent ++ (bytes ∷ []) })
went (true ∷ ts) bytes s = (ok tt, record s { sent = s.sent ++ (bytes ∷ []); sends = ts })
went (false ∷ ts) bytes s = (err unsent, record s { sends = ts })

abbrev pub send : Bytes → Run (Unit {0})
send bytes s = went s.sends bytes s

-- `let _ = remove_file(…)`
abbrev pub forget : Text → Run (Unit {0})
forget path s = (ok tt, record s { disk = (remove_file path s.disk).1 })

unfoldable pub send_files : List Text → Run (Unit {0})
unfolding read_file
send_files [] = pure tt
send_files (f ∷ fs) = do
  bytes ← on_disk unread_reply (read_file f)
  send bytes
  forget f
  send_files fs

-- `read_dir`
abbrev pub list_turn : Turn → Text → Io (List Text)
list_turn (works _) dir d = (ok (sorted (replies_in dir d.files)), advance d)
list_turn _ dir d = (err failed, advance d)

abbrev pub listed : Text → Io (List Text)
listed dir d = list_turn (next_turn d.turns) dir d

unfoldable pub pump_replies : Text → Run (Unit {0})
unfolding sorted replies_in next_turn
pump_replies dir = do files ← on_disk unreadable (listed dir); send_files files

-- What happens to a session, in order.
pub data Event : Type 0 where
  from_client : Arrival → Event
  tick : Event
  deposited : Text → Bytes → Event

abbrev pub ended_by : Result TotError (Unit {0}) → Result Ending (Unit {0})
ended_by (ok _) = ok tt
ended_by (err e) = err (leg e)

-- ANTIE's deposit, at whatever call it stops. What others saw before is no longer of interest.
abbrev pub custody : Text → Text → Bytes → Disk → Disk
custody dir name bytes d = (deposit dir name bytes (record d { seen = [] })).1

module _ (inbox : Inbox) (cap : ℕ) (id dir : Text) where
  -- One binary message: the answer, the limiter, and the session.
  abbrev pub took :
      Bytes → Arrival → RateLimiter → Session → Result Ending (Unit {0}) × RateLimiter × Session
  took bytes a l s =
      let r = submit inbox cap (stamped id) bytes a l s.disk in
      (ended_by r.0, r.1, record s { disk = r.2 })

  abbrev pub went_on :
      (RateLimiter → Run (Unit {0}))
      → Result Ending (Unit {0}) × RateLimiter × Session
      → Result Ending (Unit {0}) × Session
  went_on more (ok _, l, s) = more l s
  went_on more (err e, l, s) = (err e, s)

  abbrev pub by_message :
      (RateLimiter → Run (Unit {0})) → Message → Arrival → RateLimiter → Run (Unit {0})
  by_message more (binary bytes) a l s = went_on more (took bytes a l s)
  by_message more close a l s = (ok tt, s)
  by_message more other a l s = more l s
  by_message more broken a l s = (err (leg receive), s)

  -- The loop. With no event left the stream is closed.
  unfoldable pub session_loop : List Event → RateLimiter → Run (Unit {0})
  unfolding ◌>>=◌ pump_replies
  session_loop [] l s = (ok tt, s)
  session_loop (deposited name bytes ∷ later) l s =
      session_loop later l (record s { disk = custody dir name bytes s.disk })
  session_loop (tick ∷ later) l s = (pump_replies dir >> session_loop later l) s
  session_loop (from_client a ∷ later) l s = by_message (session_loop later) a.message a l s

-- Whether a path stands under the directory, at any depth.
unfoldable pub is_under : Text → Text → Bool
unfolding starts_with with_separator
is_under dir path = starts_with path (with_separator dir)

unfoldable pub erase_under : Text → Files → Files
unfolding is_under
erase_under dir [] = []
erase_under dir ((path, bytes) ∷ files) =
    let rest = erase_under dir files in if is_under dir path then rest else (path, bytes) ∷ rest

abbrev pub remove_turn : Turn → Text → Io (Unit {0})
remove_turn (works _) dir d = (ok tt, show (erase_under dir d.files) (advance d))
remove_turn _ dir d = (err failed, advance d)

unfoldable pub remove_dir_all : Text → Io (Unit {0})
unfolding erase_under next_turn
remove_dir_all dir d = remove_turn (next_turn d.turns) dir d

-- `SessionDir`'s `Drop`: the directory goes whatever the session came to, and a failure is only logged.
abbrev pub dropped : Text → Result Ending (Unit {0}) × Session → Result Ending (Unit {0}) × Session
dropped dir r = (r.0, record r.1 { disk = (remove_dir_all dir r.1.disk).1 })

abbrev pub session_in : Inbox → ℕ → Text → List Event → RateLimiter → Text → Run (Unit {0})
session_in inbox cap id events l dir s =
    let made = call s.disk in
    elim made.0 [
      | ok _ ↦ dropped dir (session_loop inbox cap id dir events l (record s { disk = made.1 }))
      | err _ ↦ (err no_directory, record s { disk = made.1 })
    ]

-- The bytes are what could be read of `/dev/urandom`. The limiter is any; the code starts with a new one.
unfoldable pub session_leg :
    Inbox → ℕ → Option Bytes → Option Text → List Event → RateLimiter → Run (Unit {0})
unfolding session_loop remove_dir_all call hex join
session_leg inbox cap none outbox events l = fail no_entropy
session_leg inbox cap (some b) none events l = fail no_outbox
session_leg inbox cap (some b) (some outbox) events l =
    session_in inbox cap (hex b) events l (join outbox (hex b))
