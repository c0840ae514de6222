-- ===== src/Config/Time.antt =====
-- Inline times of src/common/enumParser.hpp: `parseRmwTime` and the policies that fall back on it.
-- The regular expression RMW_TIME_REGEX is matched from left to right: what may follow each of its
-- parts never begins with a character of that part.
use Prim.Native.Char.{code}
use Prim.Native.String.{String}
use text.Mathlib.Text
use ros2_connect.Prelude.{
  ℕ, ◌+◌, ◌*◌, ◌-◌, ◌%◌, ◌^◌, Bool, true, false, ◌||◌, ◌&&◌, Option, none, some, List, [], ◌∷◌,
  ◌==◌, leb, ltb, if◌then◌else◌, ◌>>=◌, ◌>>◌, guard,
}
use ros2_connect.Config.Types.{RmwTime, time, time_default, best_available}

-- The bytes of a text.
abbrev pub codes : String → List ℕ
codes String.[] = []
codes (String.◌∷◌ c s) = code c ∷ codes s

abbrev pub is_space : ℕ → Bool
is_space c = c == 32 || (leb 9 c && leb c 13)

abbrev pub is_digit : ℕ → Bool
is_digit c = leb 48 c && leb c 57

abbrev pub is_u : ℕ → Bool
is_u c = c == 117 || c == 85

abbrev pub is_l : ℕ → Bool
is_l c = c == 108 || c == 76

-- A part `x*`, dropped.
unfoldable pub drop_while : (ℕ → Bool) → List ℕ → List ℕ
drop_while p [] = []
drop_while p (c ∷ cs) = let rest = drop_while p cs in if p c then rest else c ∷ cs

-- The digits that a text begins with.
unfoldable pub leading_digits : List ℕ → List ℕ
leading_digits [] = []
leading_digits (c ∷ cs) = let rest = leading_digits cs in if is_digit c then c ∷ rest else []

-- `\d+`.
abbrev pub some_digits : List ℕ → Option (List ℕ)
some_digits [] = none
some_digits (d ∷ ds) = some (d ∷ ds)

unfoldable pub decimal : ℕ → List ℕ → ℕ
decimal n [] = n
decimal n (d ∷ ds) = decimal (10 * n + (d - 48)) ds

abbrev pub expect : ℕ → List ℕ → Option (List ℕ)
expect c [] = none
expect c (d ∷ ds) = if d == c then some ds else none

-- `-?`.
abbrev pub sign : List ℕ → Bool × List ℕ
sign [] = (false, [])
sign (c ∷ cs) = if c == 45 then (true, cs) else (false, c ∷ cs)

-- `(?:[uU]*[lL]*)?\s*`.
abbrev pub suffix : List ℕ → List ℕ
suffix cs = drop_while is_space (drop_while is_l (drop_while is_u cs))

-- `std::stoll` of the first group, stored as `uint64_t`; `none` is `std::out_of_range`.
abbrev pub stoll : Bool → ℕ → Option ℕ
stoll false n = if ltb n (2 ^ 63) then some n else none
stoll true n = if leb n (2 ^ 63) then some ((2 ^ 64 - n) % 2 ^ 64) else none

-- `std::stoull` of the second group.
abbrev pub stoull : ℕ → Option ℕ
stoull n = if ltb n (2 ^ 64) then some n else none

abbrev pub at_end : List ℕ → Bool
at_end [] = true
at_end (c ∷ cs) = false

-- `EnumParser::parseRmwTime` on bytes.
unfoldable pub parse_rmw_time : List ℕ → Option RmwTime
unfolding drop_while leading_digits decimal
parse_rmw_time cs = do
  a ← expect 123 cs
  let signed = sign (drop_while is_space a)
  seconds ← some_digits (leading_digits signed.1)
  b ← expect 44 (suffix (drop_while is_digit signed.1))
  let c = drop_while is_space b
  nanoseconds ← some_digits (leading_digits c)
  d ← expect 125 (suffix (drop_while is_digit c))
  guard (at_end d)
  sec ← stoll signed.0 (decimal 0 seconds)
  nsec ← stoull (decimal 0 nanoseconds)
  some (time sec nsec)

-- `EnumParser::deadlinePolicy`.
unfoldable pub deadline_policy : String → Option RmwTime
unfolding parse_rmw_time
deadline_policy s =
    if Text.◌==◌ s "RMW_QOS_DEADLINE_DEFAULT"
    then some time_default
    else if Text.◌==◌ s "RMW_QOS_DEADLINE_BEST_AVAILABLE"
    then some best_available
    else parse_rmw_time (codes s)

-- `EnumParser::lifespanPolicy`.
unfoldable pub lifespan_policy : String → Option RmwTime
unfolding parse_rmw_time
lifespan_policy s =
    if Text.◌==◌ s "RMW_QOS_LIFESPAN_DEFAULT" then some time_default else parse_rmw_time (codes s)

-- `EnumParser::livelinessLeaseDurationPolicy`.
unfoldable pub liveliness_lease_duration_policy : String → Option RmwTime
unfolding parse_rmw_time
liveliness_lease_duration_policy s =
    if Text.◌==◌ s "RMW_QOS_LIVELINESS_LEASE_DURATION_DEFAULT"
    then some time_default
    else if Text.◌==◌ s "RMW_QOS_LIVELINESS_LEASE_DURATION_BEST_AVAILABLE"
    then some best_available
    else parse_rmw_time (codes s)
