-- ===== src/Antie/Carrier/Smtp/Transparent.antt =====
-- antie/src/carrier.rs, `SmtpCarrier::send`: how a server reads the mail that is sent, with
-- antie/src/email.rs, `build_response`.
use axiom_carriers.Base.{
  false, ◌==◌, Option, none, some, List, [], ◌∷◌, ◌++◌, ◌≡◌, refl, sym, ap, ◌∙◌, All, All-append,
  arith, if◌then◌else◌, append_assoc,
}
use axiom_carriers.Base.Text.{codes, has, same, starts_with}
use axiom_carriers.Base.Split.{split, split-append}
use axiom_carriers.Disk.{Bytes}
use axiom_carriers.Antie.Carrier.Smtp.{crlf}

-- What the code sends for a mail.
abbrev pub transmitted : Bytes → Bytes
transmitted raw = raw ++ (crlf ++ b'.' ∷ crlf)

abbrev with_line : Bytes → Option (List Bytes) → Option (List Bytes)
with_line l none = none
with_line l (some ls) = some (l ∷ ls)

abbrev undotted : Bytes → Bytes
undotted [] = []
undotted (x ∷ xs) = if x == b'.' then xs else x ∷ xs

-- A server's reading of the mail by its lines (RFC 5321, section 4.5.2): up to the line that is a dot,
-- and of any other line that starts with a dot without that dot.
unfoldable pub read_data : List Bytes → Option (List Bytes)
unfolding same
read_data [] = none
read_data (l ∷ ls) =
    let rest = read_data ls in
    if same l (b'.' ∷ b'\r' ∷ []) then some [] else with_line (undotted l) rest

abbrev pub IsPlain : Bytes → Type 0
IsPlain l = (starts_with l (codes ".") ≡ false) × (has b'\n' l ≡ false)

abbrev pub lines_text : List Bytes → Bytes
lines_text [] = []
lines_text (l ∷ ls) = l ++ b'\n' ∷ lines_text ls

plain_line :
    (l : Bytes)
    → starts_with l (codes ".") ≡ false
    → (same l (b'.' ∷ b'\r' ∷ []) ≡ false) × (undotted l ≡ l)
unfolding starts_with same
plain_line [] h = (refl, refl)
plain_line (x ∷ l) h = ground arith

read_next :
    (l : Bytes) (ls later : List Bytes)
    → starts_with l (codes ".") ≡ false
    → read_data later ≡ some ls
    → read_data (l ∷ later) ≡ some (l ∷ ls)
unfolding read_data
read_next l ls later h e = let (no_end, whole) = plain_line l h in rw (no_end, whole, e) refl

-- Lines without a leading dot are read as they are, up to the line that is a dot.
read_plain :
    (ls : List Bytes) (rest : Bytes)
    → All IsPlain ls
    → read_data (split b'\n' (lines_text ls ++ (b'.' ∷ b'\r' ∷ b'\n' ∷ rest))) ≡ some ls
unfolding read_data has
read_plain [] rest p = rw (split-append b'\n' (b'.' ∷ b'\r' ∷ []) rest refl) refl
read_plain (l ∷ ls) rest ((dot, one), ps) =
    rw
      (
        append_assoc l (b'\n' ∷ lines_text ls) (b'.' ∷ b'\r' ∷ b'\n' ∷ rest),
        split-append b'\n' l (lines_text ls ++ (b'.' ∷ b'\r' ∷ b'\n' ∷ rest)) one,
      )
      (read_next l ls (split b'\n' (lines_text ls ++ (b'.' ∷ b'\r' ∷ b'\n' ∷ rest))) dot
        (read_plain ls rest ps))

lines_text-append : (a b : List Bytes) → lines_text (a ++ b) ≡ lines_text a ++ lines_text b
lines_text-append [] b = refl
lines_text-append (l ∷ a) b =
    ap (λ t. l ++ b'\n' ∷ t) (lines_text-append a b)
    ∙ sym (append_assoc l (b'\n' ∷ lines_text a) (lines_text b))

empty_line : IsPlain (b'\r' ∷ [])
unfolding starts_with has
empty_line = (refl, refl)

-- A mail of whole lines, none of which starts with a dot, reaches the server as it is, with an empty
-- line behind it.
pub read_data-transmitted :
    (ls : List Bytes)
    → All IsPlain ls
    → read_data (split b'\n' (transmitted (lines_text ls))) ≡ some (ls ++ ((b'\r' ∷ []) ∷ []))
read_data-transmitted ls p =
    let bytes =
      sym (append_assoc (lines_text ls) crlf (b'.' ∷ crlf))
      ∙ ap (λ t. t ++ b'.' ∷ crlf) (sym (lines_text-append ls ((b'\r' ∷ []) ∷ []))) in
    ap (λ t. read_data (split b'\n' t)) bytes
    ∙ read_plain (ls ++ ((b'\r' ∷ []) ∷ [])) []
        (All-append IsPlain ls ((b'\r' ∷ []) ∷ []) p ((empty_line, tt)))
