-- ===== src/Command.antt =====
-- The values of the command line's flags: `splitStrings`, `splitHostnames` and `parseChain` of
-- internal/certtool/certtool.go, and strconv.Atoi.
pub mod KeyTypes
pub mod Modes
pub mod Single
pub mod Encryption
pub mod Run
pub mod Scenario
use certtool.Base.{
  ℕ, ◌-◌, ◌^◌, ℤ, pos, negsuc, Bool, ◌==◌, leb, if◌then◌else◌, Option, none, some, List, [], ◌∷◌,
  map, is_empty, Outcome, ok, err, ◌>>=◌, map_err, ◌≡◌, refl, ltb,
}
use certtool.Base.Text.{Text, codes, split, trim_space}
use certtool.Base.Decimal.{read_decimal}
use certtool.Failure.{Failure}
use certtool.Host.Valid.{validate_hostname}

-- The errors of this package, a constructor for each message.
pub data FlagError : Type 0 where
  bad_width not_a_key_type bad_key_type_form : Text → FlagError
  no_key_type_name : FlagError
  needs_length bad_key_length unknown_key_length : Text → Text → FlagError
  refused_hostname failed_by parent_not_read bad_permitted_ranges : Failure → FlagError
  not_a_scenario flag_not_for_scenario flag_not_for_export scenario_needs_hostnames :
      Text → FlagError
  scenario_needs_clients scenario_self_signed flag_has_control_character : Text → FlagError
  target_unused clients_unused hostnames_unused scenario_without_organization : FlagError
  bad_validity : FlagError
  spec_was_edited : Text → FlagError

positive : Option ℕ → Option ℤ
positive none = none
positive (some n) = if ltb n (2 ^ 63) then some (pos n) else none

negative : Option ℕ → Option ℤ
negative none = none
negative (some n) =
    if n == 0 then some (pos 0) else if leb n (2 ^ 63) then some (negsuc (n - 1)) else none

-- strconv.Atoi: an optional sign and decimal digits, in the range of an int64
unfoldable pub atoi : Text → Option ℤ
unfolding positive negative read_decimal
atoi [] = none
atoi (c ∷ s) =
    if c == b'-'
    then negative (read_decimal s)
    else if c == b'+'
    then positive (read_decimal s)
    else positive (read_decimal (c ∷ s))

-- nil where there is no text
unfoldable pub split_strings : Text → List Text
unfolding split trim_space
split_strings csv = if is_empty csv then [] else map trim_space (split b',' csv)

validate_hostnames : List Text → Outcome FlagError (Unit {0})
unfolding validate_hostname
validate_hostnames [] = ok tt
validate_hostnames (hostname ∷ hostnames) =
    map_err refused_hostname (validate_hostname hostname) >>= λ valid. validate_hostnames hostnames

unfoldable pub split_hostnames : Text → Outcome FlagError (List Text)
unfolding validate_hostnames split_strings
split_hostnames csv = do
  let hostnames = split_strings csv
  valid ← validate_hostnames hostnames
  ok hostnames

abbrev width : Text → Option ℤ → Outcome FlagError ℤ
width p none = err (bad_width p)
width p (some v) = ok v

parse_widths : List Text → Outcome FlagError (List ℤ)
unfolding atoi trim_space
parse_widths [] = ok []
parse_widths (p ∷ parts) = do
  v ← width (trim_space p) (atoi (trim_space p))
  widths ← parse_widths parts
  ok (v ∷ widths)

unfoldable pub parse_chain : Text → Outcome FlagError (List ℤ)
unfolding parse_widths split
parse_chain chain = parse_widths (split b',' chain)

parse_chain_forms :
    (parse_chain (codes "1, 2,+3") ≡ ok (pos 1 ∷ pos 2 ∷ pos 3 ∷ []))
    × (parse_chain (codes "1,,2") ≡ err (bad_width (codes "")))
    × (parse_chain (codes "-1") ≡ ok (negsuc 0 ∷ []))
unfolding parse_chain
parse_chain_forms = (refl, refl, refl)
