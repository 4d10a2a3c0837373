-- ===== src/Repository/Updcust/Fields.antt =====
-- `resolved_fields` against the rule that it stands for.
use cbsa_rust.Prelude.{◌≡◌, refl, not, [], ◌∷◌, ◌==◌, if◌then◌else◌, arith, Bool-cases, inl, inr}
use cbsa_rust.Text.{Text}
use cbsa_rust.Crates.{Crates}
use cbsa_rust.Domain.Customer.{CustomerDetails}
use cbsa_rust.Repository.Updcust.{
  UpdateCustomerCommand, is_blankish, starts_with_non_space, resolved_fields,
}

-- The three tests of `is_blankish` come down to the first character.
blankish_start : (value : Text) → is_blankish value ≡ not (starts_with_non_space value)
unfolding is_blankish starts_with_non_space
blankish_start [] = refl
blankish_start (c ∷ cs) = elim (Bool-cases (c == b' ')) [
  | inl space ↦ rw space (ground arith)
  | inr other ↦ rw other refl
]

-- A new value takes the place of the old one unless it is empty or starts with a space.
abbrev pub replaced : Text → Text → Text
replaced old new = if starts_with_non_space new then new else old

module _ ⦃c : Crates⦄ where
  -- The three assignments of an update replace each of the two fields on its own: by the new value
  -- when that is not empty and does not start with a space, and else not at all.
  pub resolved_fields_lem :
      (existing : CustomerDetails) (command : UpdateCustomerCommand)
      → resolved_fields existing command
        ≡ (replaced existing.name command.name, replaced existing.address command.address)
  unfolding resolved_fields
  resolved_fields_lem existing command =
      let n = blankish_start command.name in
      let a = blankish_start command.address in
      elim (Bool-cases (starts_with_non_space command.name)) [
        | inl given ↦ elim (Bool-cases (starts_with_non_space command.address)) [
          | inl given' ↦ rw (n, a, given, given') refl
          | inr other' ↦ rw (n, a, given, other') refl
        ]
        | inr other ↦ elim (Bool-cases (starts_with_non_space command.address)) [
          | inl given' ↦ rw (n, a, other, given') refl
          | inr other' ↦ rw (n, a, other, other') refl
        ]
      ]
