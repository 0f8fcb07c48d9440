-- ===== src/ServiceRouter/LoadBalance/Ip.antt =====
-- load_balance.go, `IpToInt`. An address is the list of its bytes.
pub mod Parts
use Prim.Native.Char.{code}
use Prim.Native.String.{String}
use laser_db.Base.{
  ℕ, zero, suc, ◌+◌, ◌-◌, ◌*◌, ◌^◌, ◌<◌, ◌≡◌, Bool, ◌&&◌, List, [], ◌∷◌, Option, none, some, leb,
  ltb, nat_beq, if◌then◌else◌, length,
}
use laser_db.Base.Int.{ℤ, pos, negsuc}
use laser_db.Base.Words.{add32}

-- The code points of a text: its bytes, if it is ASCII, as an address is.
abbrev pub codes : String → List ℕ
codes (String.◌∷◌ first rest) = code first ∷ codes rest
codes String.[] = []

-- `strings.Split(s, sep)` for a separator of one byte.
unfoldable pub push_head : ℕ → List (List ℕ) → List (List ℕ)
push_head c [] = (c ∷ []) ∷ []
push_head c (part ∷ parts) = (c ∷ part) ∷ parts

unfoldable pub split : ℕ → List ℕ → List (List ℕ)
unfolding push_head
split sep [] = [] ∷ []
split sep (c ∷ cs) =
    let rest = split sep cs in if nat_beq c sep then [] ∷ rest else push_head c rest

abbrev is_digit : ℕ → Bool
is_digit c = leb b'0' c && leb c b'9'

-- The digits of a decimal number, most significant first; `none` at any other byte. The first digit
-- that takes the number out of a uint64 ends the loop with the greatest one.
abbrev uint64_max : ℕ
uint64_max = 2 ^ 64 - 1

unfoldable pub digits_value : ℕ → List ℕ → Option ℕ
digits_value acc [] = some acc
digits_value acc (c ∷ cs) =
    let value = acc * 10 + (c - b'0') in
    let rest = digits_value value cs in
    if is_digit c then if ltb uint64_max value then some uint64_max else rest else none

-- The value that `strconv.Atoi` returns beside its error: 0 for a syntax error, the nearest
-- int64 for a number out of range.
abbrev pub int64_max : ℕ
int64_max = 2 ^ 63 - 1

unfoldable pub nonneg : Option ℕ → ℤ
nonneg none = pos 0
nonneg (some n) = if leb n int64_max then pos n else pos int64_max

unfoldable pub negated : Option ℕ → ℤ
negated none = pos 0
negated (some zero) = pos 0
negated (some (suc n)) = if leb n int64_max then negsuc n else negsuc int64_max

unfoldable pub unsigned : List ℕ → Option ℕ
unsigned [] = none
unsigned (c ∷ cs) = digits_value 0 (c ∷ cs)

unfoldable pub atoi : List ℕ → ℤ
unfolding nonneg negated unsigned digits_value
atoi [] = pos 0
atoi (c ∷ cs) =
    if nat_beq c b'-'
    then negated (unsigned cs)
    else if nat_beq c b'+'
    then nonneg (unsigned cs)
    else nonneg (unsigned (c ∷ cs))

-- `int32(float64(t) * math.Pow(256, i))` as a bit pattern. Go leaves the conversion of a value
-- out of range to the implementation, so the arithmetic is a parameter.
abbrev pub FloatTerm : Type 0
FloatTerm = ℤ → ℕ → ℕ

-- What Go promises: a value in the range of int32 is exact.
abbrev pub IsExact : FloatTerm → Type 0
IsExact term = (t i : ℕ) → t * 256 ^ i < 2 ^ 31 → term (pos t) i ≡ t * 256 ^ i

module _ (term : FloatTerm) where
  -- The loop over the parts: `i` falls from 3, `total` is an int32.
  unfoldable pub sum_parts : ℕ → ℕ → List (List ℕ) → ℕ
  sum_parts total i [] = total
  sum_parts total i (v ∷ vs) = sum_parts (add32 total (term (atoi v) i)) (i - 1) vs

  unfoldable pub codes_to_int : List ℕ → ℕ
  unfolding sum_parts add32
  codes_to_int cs =
      let arr = split b'.' cs in if nat_beq (length arr) 4 then sum_parts 0 3 arr else 0

  unfoldable pub ip_to_int : String → ℕ
  unfolding codes_to_int
  ip_to_int ip = codes_to_int (codes ip)
