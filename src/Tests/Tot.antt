-- ===== src/Tests/Tot.antt =====
-- Tests of tot/src/main.rs: the stamp, the two ways in, the limiter and the demux.
use axiom_carriers.Base.{
  ℕ, ◌<◌, ◌≤◌, not, Bool, true, false, Option, none, some, List, [], ◌∷◌, ◌++◌, ◌≡◌, ◌≢◌, ◌⊎◌, refl,
  keep, length,
}
use axiom_carriers.Base.Text.{Text, codes, has}
use axiom_carriers.Base.Result.{ok}
use axiom_carriers.Disk.{Bytes, Disk, lookup, join}
use axiom_carriers.Tot.Maildir.{Inbox, Moment, inbox_at, unique_name}
use axiom_carriers.Tot.RateLimiter.{RateLimiter, new, allow}
use axiom_carriers.Tot.Utf8.{lossy, lossy_from}
use axiom_carriers.Tot.Stamp.{stamp_session, split_inclusive, stamp_line, is_stamp}
use axiom_carriers.Tot.Stamp.Headers.{header_lines, body_lines, stamp_session_blocks}
use axiom_carriers.Tot.Intake.{
  demux, tcp_intake, u32_le, tcp_intake_leg, Arrival, binary, submit, verbatim,
}
use axiom_carriers.Tot.Intake.Verbatim.{
  le_bytes, demux-frame, Landed, tcp_intake_leg_frame, submit-Landed,
}
use axiom_carriers.Tests.{empty_disk}
use native.Mathlib.Omega.{arith}

-- A message whose client set a stamp of its own.
abbrev raw : Bytes
raw = codes "A: b\r\nx-tot-SESSION: evil\r\n\r\nX-TOT-Session: body\r\n"

abbrev out : Bytes
out = codes "X-TOT-Session: 7f\r\nA: b\r\n\r\nX-TOT-Session: body\r\n"

raw_stamped : stamp_session raw (codes "7f") ≡ some out
unfolding stamp_session axiom_carriers.Base.Text.contains axiom_carriers.Tot.Utf8.lossy_from
    axiom_carriers.Base.Text.lower
raw_stamped = refl

stamp_session_blocks_example :
    (header_lines (split_inclusive out)
      ≡ stamp_line (codes "7f")
        ∷ keep (λ l. not (is_stamp l)) (header_lines (split_inclusive (lossy raw))))
    × (body_lines (split_inclusive out) ≡ body_lines (split_inclusive (lossy raw)))
unfolding has
stamp_session_blocks_example = stamp_session_blocks raw (codes "7f") out refl raw_stamped

-- A byte that is no UTF-8 does not survive the stamp.
lossy_byte : lossy (0xFF ∷ b'a' ∷ []) ≡ 0xEF ∷ 0xBF ∷ 0xBD ∷ b'a' ∷ []
unfolding lossy_from
lossy_byte = refl

abbrev moment : Moment
moment = record { secs = 5; nanos = 6; seq = 7; pid = 8 }

abbrev inbox : Inbox
inbox = inbox_at (codes "/var/inbox")

demux-frame_example :
    (demux (le_bytes 3 ++ 1 ∷ 2 ∷ 3 ∷ []) ≡ ok (tcp_intake (le_bytes 3) (1 ∷ 2 ∷ 3 ∷ [])))
    × (u32_le (le_bytes 3) ≡ 3)
demux-frame_example = demux-frame (1 ∷ 2 ∷ 3 ∷ []) (omega arith)

abbrev frame : Bytes
frame = 1 ∷ 2 ∷ 3 ∷ []

tcp_intake_leg_frame_example :
    let r = tcp_intake_leg inbox 2 (le_bytes 3) frame moment empty_disk in
    Landed inbox moment frame r
    × ((length frame ≡ 0) ⊎ (2 < length frame) → (r.0 ≢ ok tt) × (r.1 ≡ empty_disk))
tcp_intake_leg_frame_example = tcp_intake_leg_frame inbox 2 frame moment empty_disk (omega arith)

abbrev arrival : Arrival
arrival = record { message = binary (1 ∷ 2 ∷ []); now = 5; moment = moment }

abbrev limiter : RateLimiter
limiter = record { max_per_sec = 8; window_start = 0; count = 3 }

submit-Landed_example :
    (2 ≤ 4)
    × ((allow limiter 5).1 ≡ true)
    × ((o : Bytes) × (verbatim (1 ∷ 2 ∷ []) ≡ some o)
        × (lookup
              (join inbox.new (unique_name moment))
              (submit inbox 4 verbatim (1 ∷ 2 ∷ []) arrival limiter empty_disk).2.files
            ≡ some o))
unfolding submit allow axiom_carriers.Tot.Maildir.deliver_as axiom_carriers.Disk.create
    axiom_carriers.Disk.write_all axiom_carriers.Disk.later_turns axiom_carriers.Disk.call
    axiom_carriers.Disk.rename lookup axiom_carriers.Disk.insert axiom_carriers.Base.Text.same join
    unique_name axiom_carriers.Base.Decimal.print
submit-Landed_example = submit-Landed inbox 4 verbatim (1 ∷ 2 ∷ []) arrival limiter empty_disk refl

-- A folded stamp of the client leaves its second line, which continues the session's own header.
folded_stamp :
    stamp_session (codes "x-tot-session: a\r\n evil\r\n\r\n") (codes "7f")
    ≡ some (codes "X-TOT-Session: 7f\r\n evil\r\n\r\n")
unfolding stamp_session axiom_carriers.Base.Text.contains lossy_from axiom_carriers.Base.Text.lower
folded_stamp = refl
