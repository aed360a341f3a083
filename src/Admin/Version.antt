-- ===== src/Admin/Version.antt =====
-- `compareSemver` and `splitSemver` of internal/admin/version.go. A number is an `int`, as its 64-bit
-- pattern; -1 is the pattern of all ones.
pub mod Order
use Prim.Native.String.{len, slice}
use Prim.Native.Char.{code}
use claw_proxy_hub_next.Base.{
  ℕ, ◌-◌, ◌==◌, leb, String, str_eq, Bool, true, false, ◌&&◌, ◌||◌, Option, none, some, List, [],
  ◌∷◌, map, if◌then◌else◌, trim_space, trim_prefix, has_prefix, gt64, int64_mod, int64_max, ◌≡◌,
  refl, sym, arith, read_digits, Bool-cases, inl, inr,
}

-- What is before the first of `-` and `+`.
unfoldable pub before_suffix : String → String
before_suffix String.[] = ""
before_suffix (String.◌∷◌ c s) =
    let rest = before_suffix s in if code c == b'-' || code c == b'+' then "" else String.◌∷◌ c rest

-- `strings.Split(s, ".")`
abbrev put_front : String → List String → List String
put_front c [] = c ∷ []
put_front c (p ∷ ps) = c ∷ p ∷ ps

abbrev glue : Bool → (String → String) → List String → List String
glue true f parts = "" ∷ parts
glue false f [] = f "" ∷ []
glue false f (p ∷ ps) = f p ∷ ps

unfoldable pub split_dots : String → List String
split_dots String.[] = "" ∷ []
split_dots (String.◌∷◌ c s) = glue (code c == b'.') (String.◌∷◌ c) (split_dots s)

-- The value of `strconv.Atoi` beside an error: 0, or the nearest `int` of a number that has none.
abbrev pub clamp : Option ℕ → ℕ
clamp none = 0
clamp (some n) = if leb n int64_max then n else int64_max

abbrev pub digits_of : String → Option ℕ
digits_of String.[] = none
digits_of (String.◌∷◌ c s) = read_digits 0 (String.◌∷◌ c s)

-- A part has no sign, since what is behind one is cut off.
unfoldable pub atoi_value : String → ℕ
unfolding read_digits
atoi_value s = clamp (digits_of s)

unfoldable pub split_semver : String → List ℕ
unfolding trim_space trim_prefix before_suffix split_dots atoi_value
split_semver s =
    map atoi_value (split_dots (before_suffix (trim_prefix (trim_prefix (trim_space s) "v") "V")))

abbrev pub minus_one : ℕ
minus_one = int64_mod - 1

-- One round of the loop: the numbers at a place, and the rest.
abbrev pub decide : ℕ → ℕ → ℕ → ℕ
decide x y rest = if x == y then rest else if gt64 x y then 1 else minus_one

-- The loop of `compareSemver`: a missing number is 0.
unfoldable pub compare_parts : List ℕ → List ℕ → ℕ
compare_parts [] [] = 0
compare_parts (x ∷ xs) [] = decide x 0 (compare_parts xs [])
compare_parts [] (y ∷ ys) = decide 0 y (compare_parts [] ys)
compare_parts (x ∷ xs) (y ∷ ys) = decide x y (compare_parts xs ys)

unfoldable pub compare_semver : String → String → ℕ
unfolding split_semver compare_parts
compare_semver a b = compare_parts (split_semver a) (split_semver b)
