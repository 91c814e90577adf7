-- ===== src/Antie/Carrier/Pop3/Stuffing.antt =====
-- antie/src/carrier.rs, `read_multiline`: a message arrives as it was sent.
use axiom_carriers.Base.{true, false, not, ◌||◌, ◌==◌, List, [], ◌∷◌, ◌++◌, ◌≡◌, if◌then◌else◌}
use axiom_carriers.Base.Text.{Text, codes, has, same, starts_with, trim}
use axiom_carriers.Base.Result.{Result, ok}
use axiom_carriers.Disk.{Bytes}
use axiom_carriers.Tot.Utf8.{is_ascii}
use axiom_carriers.Antie.Carrier.Wire.{Fail, Wire, lf}
use axiom_carriers.Antie.Carrier.Wire.Laws.{Leaves}

-- What a POP3 server sends for a line of a message: one more dot before a dot.
abbrev pub stuffed_line : Bytes → Bytes
stuffed_line [] = []
stuffed_line (x ∷ xs) = if x == b'.' then b'.' ∷ x ∷ xs else x ∷ xs

abbrev pub stuffed : List Bytes → Bytes
stuffed [] = codes "." ++ b'\r' ∷ lf ∷ []
stuffed (l ∷ ls) = stuffed_line l ++ lf ∷ stuffed ls

abbrev pub joined_lines : List Bytes → Bytes
joined_lines [] = []
joined_lines (l ∷ ls) = l ++ lf ∷ joined_lines ls

-- A line that the code takes for the message's and not for its end: ASCII, without a line end, and a
-- dot between blanks only if the dot comes first.
pub record IsPlain (l : Bytes) : Type 0 where
  pub one : has lf l ≡ false
  pub ascii : is_ascii (stuffed_line l ++ lf ∷ []) ≡ true
  pub no_end : (starts_with l (codes ".") || not (same (trim (l ++ lf ∷ [])) (codes "."))) ≡ true

-- What is left to read, and what was sent, after the lines.
abbrev Arrived : Wire → Bytes → Bytes → Result Fail Bytes × Wire → Type 0
Arrived w got rest r = (r.0 ≡ ok got) × Leaves w rest r.1

abbrev fresh : Wire → Wire
fresh w = record w { buffer = [] }
