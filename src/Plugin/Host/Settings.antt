-- ===== src/Plugin/Host/Settings.antt =====
-- The outbound identity of the system's settings as defaults for a plugin's own.
use claw_proxy_hub_next.Base.{
  String, str_eq, eq_iff, true, false, ◌||◌, Option, none, some, [], ◌∷◌, GoMap, lookup, insert,
  lookup-insert, if◌then◌else◌, ◌≡◌, arith, Bool-cases, inl, inr,
}
use claw_proxy_hub_next.Plugin.Host.{Value, text, is_filled, merge_defaults}

-- What the plugin should get under a key: its own setting, or else the system's if it is not empty.
abbrev pub default : Option String → Option Value → Option Value
default none own = own
default (some v) own = if str_eq v "" then own else some (text v)

abbrev pub expected : GoMap String → GoMap Value → String → Option Value
expected identity cfg key =
    if is_filled (lookup key cfg)
    then lookup key cfg
    else default (lookup key identity) (lookup key cfg)

-- Keys stand once, and blank values do not count as filled, which trimming has seen to.
abbrev pub IsTidy : GoMap String → Type 0
IsTidy [] = Unit
IsTidy ((key, value) ∷ rest) =
    (lookup key rest ≡ none)
    × ((str_eq value "" ≡ false) → is_filled (some (text value)) ≡ true)
    × IsTidy rest

-- A plugin's settings with the outbound identity of the system merged in: under each key it has its own
-- setting if it has filled that, or else the system's if that is not empty, or else what it had; the
-- identity has each key once and trimmed values.
pub lookup-merge_defaults :
    (identity : GoMap String) (cfg : GoMap Value) (key : String)
    → IsTidy identity
    → lookup key (merge_defaults identity cfg) ≡ expected identity cfg key
unfolding merge_defaults lookup
lookup-merge_defaults [] cfg key t = ground arith
lookup-merge_defaults ((k, v) ∷ rest) cfg key t =
    elim (Bool-cases (str_eq v "" || is_filled (lookup k cfg))) [
      | inl e ↦
          rw (e, lookup-merge_defaults rest cfg key t.2) (ground (arith, e, eq_iff k key, t.0))
      | inr e ↦
          rw (e, lookup-merge_defaults rest (insert k (text v) cfg) key t.2)
            (ground (arith, e, eq_iff k key, t.0, t.1, lookup-insert k key (text v) cfg))
    ]
