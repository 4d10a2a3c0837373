-- ===== src/Service/Titles.antt =====
-- The titles of customers, which `service/crecust.rs` and `service/updcust.rs` test with a function
-- `first_token` of their own each.
use cbsa_rust.Prelude.{Bool, false, ◌||◌, List, [], ◌∷◌, ◌==◌, String, if◌then◌else◌}
use cbsa_rust.Text.{Text, codes, text_eq, trim_start}

-- The text before the first space.
abbrev pub before_space : Text → Text
before_space [] = []
before_space (c ∷ cs) = let rest = before_space cs in if c == b' ' then [] else c ∷ rest

-- `matches!` on one of some literals.
unfoldable pub is_one_of : Text → List String → Bool
is_one_of token [] = false
is_one_of token (title ∷ titles) = text_eq token (codes title) || is_one_of token titles

abbrev pub titles : List String
titles = "Professor" ∷ "Mr" ∷ "Mrs" ∷ "Miss" ∷ "Ms" ∷ "Dr" ∷ "Drs" ∷ "Lord" ∷ "Sir" ∷ "Lady" ∷ []

-- `first_token` and `valid_title` of `service/crecust.rs`.
unfoldable pub created_token : Text → Text
created_token name = before_space (trim_start name)

unfoldable pub created_title : Text → Bool
created_title name = is_one_of (created_token name) titles

-- `first_token` and `valid_title` of `service/updcust.rs`, which accepts the empty title too.
unfoldable pub updated_token : Text → Text
updated_token name = before_space name

unfoldable pub updated_title : Text → Bool
updated_title name = is_one_of (updated_token name) titles || text_eq (updated_token name) []
