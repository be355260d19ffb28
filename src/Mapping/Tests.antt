-- ===== src/Mapping/Tests.antt =====
-- A mapping with a key and a pattern.
use lite_api.Common.{codes, [], ◌∷◌}
use lite_api.Mapping.{ModelMap}

abbrev entries : ModelMap
entries =
    (codes "gpt-4", codes "gpt-4o") ∷ (codes "gpt-*", codes "gpt-5") ∷ (codes "gpt-5*", []) ∷ []
