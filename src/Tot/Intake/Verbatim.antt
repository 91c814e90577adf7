-- ===== src/Tot/Intake/Verbatim.antt =====
-- tot/src/main.rs: what is written for a submission, and when.
use axiom_carriers.Base.{
  ℕ, ◌/◌, ◌%◌, ◌^◌, ◌≤◌, ◌<◌, true, Option, some, [], ◌∷◌, ◌++◌, length, take, ◌≡◌, ◌≢◌, refl,
  arith, ◌⊎◌, inl, inr, Option-cases, ap,
}
use axiom_carriers.Base.Text.{Text, same}
use axiom_carriers.Base.Result.{Result, ok, err}
use axiom_carriers.Disk.{Bytes, Disk, lookup, join, create, write_all, call, rename}
use axiom_carriers.Disk.Holds.{AfterOk, write_all-AfterOk, call-files, rename-AfterOk}
use axiom_carriers.Tot.Maildir.{Inbox, Moment, unique_name, deliver, deliver_as}
use axiom_carriers.Tot.RateLimiter.{RateLimiter, allow}
use axiom_carriers.Tot.Intake.{
  TotError, tcp_intake, demux, u32_le, landed, tcp_intake_leg, Arrival, submit,
}

deliver_as-AfterOk :
    (inbox : Inbox) (name : Text) (bytes : Bytes) (d : Disk)
    → AfterOk
        (λ e. lookup (join inbox.new name) e.files ≡ some bytes)
        (deliver_as inbox name bytes d)
unfolding deliver_as
deliver_as-AfterOk inbox name bytes d =
    let tmp = join inbox.tmp name in
    let d1 : Disk = (create tmp d).1 in
    let d2 : Disk = (write_all tmp bytes d1).1 in
    let d3 : Disk = (call d2).1 in
    let d4 : Disk = (rename tmp (join inbox.new name) d3).1 in
    ground (
      arith,
      write_all-AfterOk tmp bytes d1,
      call-files d2,
      rename-AfterOk tmp (join inbox.new name) bytes d3,
      call-files d4,
      call-files (call d4).1,
    )

-- `u32::to_le_bytes`, as a client writes the length.
abbrev pub le_bytes : ℕ → Bytes
le_bytes n = n % 256 ∷ (n / 256) % 256 ∷ (n / 65536) % 256 ∷ (n / 16777216) % 256 ∷ []

-- The length that spells `GET `.
abbrev pub get_length : ℕ
get_length = 0x20544547

u32_le-le_bytes : (n : ℕ) → n < 2 ^ 32 → u32_le (le_bytes n) ≡ n
unfolding u32_le
u32_le-le_bytes n h = omega arith

-- A frame shorter than the length that spells `GET ` is taken for a frame, and its length and its body
-- are read as the client wrote them.
pub demux-frame :
    (body : Bytes)
    → length body < get_length
    → let n = length body in
      (demux (le_bytes n ++ body) ≡ ok (tcp_intake (le_bytes n) body)) × (u32_le (le_bytes n) ≡ n)
unfolding demux same
demux-frame body h = (ground arith, u32_le-le_bytes (length body) (omega arith))

take-all : (b : Bytes) → take (length b) b ≡ b
take-all [] = refl
take-all (x ∷ b) = ap (◌∷◌ x) (take-all b)

-- The file of the submission holds just these bytes.
abbrev pub Landed : Inbox → Moment → Bytes → Result TotError (Unit {0}) × Disk → Type 0
Landed inbox m bytes (ok _, d) = lookup (join inbox.new (unique_name m)) d.files ≡ some bytes
Landed inbox m bytes (err _, d) = Unit

landed-Landed :
    (inbox : Inbox) (m : Moment) (bytes : Bytes) (d : Disk)
    → Landed inbox m bytes (landed (deliver inbox m bytes d))
landed-Landed inbox m bytes d = ground (arith, deliver_as-AfterOk inbox (unique_name m) bytes d)

-- The raw leg: a frame of at least one byte and at most the cap is written verbatim or the leg reports
-- an error; an empty frame or one over the cap is refused, and no file is touched.
pub tcp_intake_leg_frame :
    (inbox : Inbox) (cap : ℕ) (body : Bytes) (m : Moment) (d : Disk)
    → length body < 2 ^ 32
    → let r = tcp_intake_leg inbox cap (le_bytes (length body)) body m d in
      Landed inbox m body r × ((length body ≡ 0) ⊎ (cap < length body) → (r.0 ≢ ok tt) × (r.1 ≡ d))
unfolding tcp_intake_leg
tcp_intake_leg_frame inbox cap body m d h =
    let n = length body in
    let len : u32_le (le_bytes n) ≡ n = u32_le-le_bytes n h in
    let whole : take n body ≡ body = take-all body in
    let there = landed-Landed inbox m body d in
    (
      rw (len, whole) (ground (arith, there)),
      rw (len, whole) (λ bad. (λ fine. ground arith, ground arith)),
    )

-- The WebSocket legs: a message that is accepted is within the cap and within the budget of the
-- limiter, and its envelope lies complete in the inbox.
pub submit-Landed :
    (inbox : Inbox) (cap : ℕ) (envelope : Bytes → Option Bytes) (bytes : Bytes) (a : Arrival)
    (l : RateLimiter) (d : Disk)
    → (submit inbox cap envelope bytes a l d).0 ≡ ok tt
    → (length bytes ≤ cap)
      × ((allow l a.now).1 ≡ true)
      × ((out : Bytes) × (envelope bytes ≡ some out)
          × (lookup
                (join inbox.new (unique_name a.moment))
                (submit inbox cap envelope bytes a l d).2.files
              ≡ some out))
unfolding submit
submit-Landed inbox cap envelope bytes a l d e = elim (Option-cases (envelope bytes)) [
  | inl refused ↦ absurd (ground (arith, refused))
  | inr (out, made) ↦
      let there = landed-Landed inbox a.moment out d in
      (ground arith, ground arith, (out, made, ground (arith, made, there)))
]
