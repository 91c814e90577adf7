-- ===== src/Antie/Carrier/Wire.antt =====
-- antie/src/carrier.rs, `carrier_io`: a connection to a mail server, as its reads and writes go.
--
-- What the server does is a list of events, one for each read: the bytes that it returns (none at the
-- end of the stream), a failure, or nothing within the time allowed. With no event left the server is
-- silent. A failed write is a turn; with no turn left all writes work.
pub mod Utf8
pub mod Laws
pub mod Loop
pub mod Script
pub mod Exact
pub mod Spread
pub mod Unroll
pub mod Told
use axiom_carriers.Base.{
  ℕ, ◌+◌, ◌%◌, ◌^◌, Bool, true, false, if◌then◌else◌, leb, Option, none, some, List, [], ◌∷◌, ◌++◌,
  length, take, drop,
}
use axiom_carriers.Base.Text.{Text, split_once}
use axiom_carriers.Base.Result.{Result, ok, err}
use axiom_carriers.Disk.{Bytes}
use axiom_carriers.Antie.Node.{bump}
use Utf8.{decode}

pub data Event : Type 0 where
  received : Bytes → Event
  broken silent : Event

-- Why a carrier gives up. The code has one variant, `ConfigError`, and tells them apart by the text.
-- `exhausted` is a loop that has no rounds left, which does not happen.
pub data Fail : Type 0 where
  unreachable closed unread stalled unwritten rejected injected unsupported plaintext exhausted :
      Fail

-- `buffer` is what the reader has taken from the connection and not passed on, `sent` the writes in
-- order, and `eofs` the counter `EOF_MID_RESPONSE`.
pub record Wire : Type 0 where
  pub buffer : Bytes
  pub incoming : List Event
  pub sent : List Bytes
  pub writes : List Bool
  pub eofs : ℕ

abbrev pub Net : Type 0 → Type 0
Net A = Wire → Result Fail A × Wire

infixl 5 ◌>>=◌ ◌>>◌
unfoldable pub ◌>>=◌ : {A B : Type 0} → Net A → (A → Net B) → Net B
◌>>=◌ m f w = let r = m w in elim r.0 [ ok a ↦ f a r.1 | err e ↦ (err e, r.1) ]

abbrev pub ◌>>◌ : {A B : Type 0} → Net A → Net B → Net B
m >> k = m >>= λ _. k

abbrev pub pure : {A : Type 0} → A → Net A
pure a w = (ok a, w)

abbrev pub fail : {A : Type 0} → Fail → Net A
fail e w = (err e, w)

-- `let _ = …;`
abbrev pub ignore : {A : Type 0} → Net A → Net (Unit {0})
ignore m w = (ok tt, (m w).1)

abbrev pub lf : ℕ
lf = b'\n'

-- A line with what the reader holds behind it, or why there is none.
pub data Line : Type 0 where
  line : Bytes → Bytes → List Event → Line
  cut : Fail → List Event → Line

-- At the end of the stream: what came of a line counts as one, and nothing is an error.
abbrev ended : Bytes → List Event → Line
ended [] es = cut closed es
ended (x ∷ xs) es = line (x ∷ xs) [] es

-- Reads on until the bytes so far hold a line.
unfoldable pub pull : Bytes → List Event → Line
unfolding split_once
pull acc [] = cut stalled []
pull acc (broken ∷ es) = cut unread es
pull acc (silent ∷ es) = cut stalled es
pull acc (received [] ∷ es) = ended acc es
pull acc (received (x ∷ xs) ∷ es) =
    let more = pull (acc ++ (x ∷ xs)) es in
    elim (split_once lf (acc ++ (x ∷ xs))) [ some (a, b) ↦ line (a ++ lf ∷ []) b es | none ↦ more ]

unfoldable pub next_line : Bytes → List Event → Line
unfolding pull
next_line buf es = elim (split_once lf buf) [
  | some (a, b) ↦ line (a ++ lf ∷ []) b es
  | none ↦ pull buf es
]

abbrev counted : Fail → ℕ → ℕ
counted closed n = bump n
counted _ n = n

-- `read_line` of the library takes UTF-8 only. The text is what the bytes stand for.
abbrev valid_line : Bytes → Option Text → Result Fail (Bytes × Text)
valid_line l (some t) = ok (l, t)
valid_line l none = err unread

abbrev read_as : Line → Net (Bytes × Text)
read_as (line l b es) w = (valid_line l (decode l), record w { buffer = b; incoming = es })
read_as (cut e es) w = (err e, record w { buffer = []; incoming = es; eofs = counted e w.eofs })

unfoldable pub read_line : Net (Bytes × Text)
unfolding next_line decode
read_line w = read_as (next_line w.buffer w.incoming) w

pub data Block : Type 0 where
  block : Bytes → Bytes → List Event → Block
  short : Fail → List Event → Block

-- Reads on until there are `need` bytes.
unfoldable pub pull_exact : ℕ → Bytes → List Event → Block
pull_exact need acc [] = short stalled []
pull_exact need acc (broken ∷ es) = short unread es
pull_exact need acc (silent ∷ es) = short stalled es
pull_exact need acc (received [] ∷ es) = short closed es
pull_exact need acc (received (x ∷ xs) ∷ es) =
    let more = pull_exact need (acc ++ (x ∷ xs)) es in
    if leb need (length (acc ++ (x ∷ xs)))
    then block (take need (acc ++ (x ∷ xs))) (drop need (acc ++ (x ∷ xs))) es
    else more

unfoldable pub next_block : ℕ → Bytes → List Event → Block
unfolding pull_exact
next_block need buf es =
    if leb need (length buf)
    then block (take need buf) (drop need buf) es
    else pull_exact need buf es

abbrev block_as : Block → Net Bytes
block_as (block l b es) w = (ok l, record w { buffer = b; incoming = es })
block_as (short e es) w = (err e, record w { buffer = []; incoming = es; eofs = counted e w.eofs })

unfoldable pub read_exact : ℕ → Net Bytes
unfolding next_block
read_exact need w = block_as (next_block need w.buffer w.incoming) w

abbrev written : List Bool → Bytes → Net (Unit {0})
written [] bytes w = (ok tt, record w { sent = w.sent ++ (bytes ∷ []) })
written (true ∷ ts) bytes w = (ok tt, record w { sent = w.sent ++ (bytes ∷ []); writes = ts })
written (false ∷ ts) bytes w = (err unwritten, record w { writes = ts })

-- `write_all` with its flush. Of a write that fails, nothing counts as sent.
unfoldable pub write_all : Bytes → Net (Unit {0})
write_all bytes w = written w.writes bytes w

-- A new `BufReader` holds nothing, and what it holds is gone when it is dropped.
abbrev pub with_reader : {A : Type 0} → Net A → Net A
with_reader m w = let r = m (record w { buffer = [] }) in (r.0, record r.1 { buffer = [] })
