-- ===== src/Mapping/Targets.antt =====
-- What a mapping lets an account serve.
use lite_api.Common.{◌≡◌, ◌⊎◌, nat_eq, text_eq, Text, true, In}
use lite_api.Common.Strings.{has_prefix, trim_star, ends_in_star}
use lite_api.Mapping.{ModelMap, Credential, mapping, absent, malformed}

-- The name is a key of the mapping, or a key that ends in a star covers it.
abbrev pub IsListed : ModelMap → Text → Type 0
IsListed entries name =
    (key : Text) × (to : Text) × In (key, to) entries
    × ((key ≡ name) ⊎ ((ends_in_star key ≡ true) × (has_prefix name (trim_star key) ≡ true)))

-- What a credential lists, if it is a mapping.
abbrev pub Lists : Credential → Text → Type 0
Lists absent name = ⊥
Lists malformed name = ⊥
Lists (mapping entries) name = IsListed entries name
