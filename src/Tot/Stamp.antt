-- ===== src/Tot/Stamp.antt =====
-- tot/src/main.rs, `stamp_session`: the one header that TOT adds to a message.
pub mod Headers
use axiom_carriers.Base.{
  ℕ, Bool, true, false, not, ◌&&◌, ◌||◌, ◌==◌, if◌then◌else◌, Option, none, some, List, [], ◌∷◌,
  ◌++◌,
}
use axiom_carriers.Base.Text.{Text, codes, contains, lower, starts_with}
use axiom_carriers.Antie.CareOf.{is_empty}
use axiom_carriers.Disk.{Bytes}
use axiom_carriers.Tot.Utf8.{lossy}

-- `split_inclusive('\n')`
unfoldable pub push_front : ℕ → List Bytes → List Bytes
push_front c [] = (c ∷ []) ∷ []
push_front c (l ∷ ls) = (c ∷ l) ∷ ls

unfoldable pub split_inclusive : Bytes → List Bytes
unfolding push_front
split_inclusive [] = []
split_inclusive (c ∷ cs) =
    let rest = split_inclusive cs in if c == b'\n' then (c ∷ []) ∷ rest else push_front c rest

abbrev pub is_break : ℕ → Bool
is_break c = c == b'\r' || c == b'\n'

abbrev pub strip_breaks : Bytes → Bytes → Bytes
strip_breaks [] c = c
strip_breaks (x ∷ xs) c = c ++ x ∷ xs

-- `trim_end_matches(['\r', '\n'])`
unfoldable pub trim_breaks : Bytes → Bytes
trim_breaks [] = []
trim_breaks (c ∷ cs) =
    let rest = trim_breaks cs in if is_break c && is_empty rest then [] else c ∷ rest

unfoldable pub is_blank : Bytes → Bool
unfolding trim_breaks
is_blank line = is_empty (trim_breaks line)

unfoldable pub is_stamp : Bytes → Bool
unfolding trim_breaks
is_stamp line = starts_with (lower (trim_breaks line)) (codes "x-tot-session:")

-- The lines that are pushed; the header block ends at the first blank line.
unfoldable pub kept : Bool → List Bytes → List Bytes
unfolding is_blank is_stamp
kept in_headers [] = []
kept in_headers (line ∷ rest) =
    let after = kept false rest in
    let before = kept true rest in
    if not in_headers
    then line ∷ after
    else if is_blank line
    then line ∷ after
    else if is_stamp line
    then before
    else line ∷ before

unfoldable pub joined : List Bytes → Bytes
joined [] = []
joined (l ∷ ls) = l ++ joined ls

abbrev pub stamp_line : Text → Bytes
stamp_line id = codes "X-TOT-Session: " ++ id ++ codes "\r\n"

unfoldable pub has_header_block : Bytes → Bool
has_header_block raw = contains raw (codes "\r\n\r\n") || contains raw (codes "\n\n")

unfoldable pub stamp_session : Bytes → Text → Option Bytes
unfolding has_header_block split_inclusive kept joined
stamp_session raw id =
    if has_header_block raw
    then some (stamp_line id ++ joined (kept true (split_inclusive (lossy raw))))
    else none
