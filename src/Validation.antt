-- ===== src/Validation.antt =====
-- src/validation.rs: the issues that a validation reports, and their severities. The text of a
-- context is kept as the numbers that it prints.
use Prim.Native.String.{String}
use elfex.Common.{ℕ, List, [], ◌∷◌, Option, none, some, Bool, true, false, any}

pub data ValidationLevel : Type 0 where
  at_warning at_error : ValidationLevel

pub data ValidationCode : Type 0 where
  invalid_magic : ValidationCode
  unsupported_class : ValidationCode
  unsupported_data_encoding : ValidationCode
  invalid_type : ValidationCode
  entry_point_out_of_image : ValidationCode
  overlapping_segments : ValidationCode
  segment_file_range_out_of_bounds : ValidationCode
  segment_vaddr_misaligned : ValidationCode
  invalid_program_header_count : ValidationCode
  section_file_range_out_of_bounds : ValidationCode
  invalid_string_table_index : ValidationCode
  no_load_segments : ValidationCode

-- `{entry:#x}`, `segment {i}`, and `segments {i} and {j}`
pub data IssueContext : Type 0 where
  address : ℕ → IssueContext
  segment : ℕ → IssueContext
  segments : ℕ → ℕ → IssueContext

pub record ValidationIssue : Type 0 where
  pub level : ValidationLevel
  pub code : ValidationCode
  pub message : String
  pub context : Option IssueContext

unfoldable pub warning : ValidationCode → String → ValidationIssue
warning code message = record { level = at_warning; code = code; message = message; context = none }

unfoldable pub error : ValidationCode → String → ValidationIssue
error code message = record { level = at_error; code = code; message = message; context = none }

unfoldable pub with_context : ValidationIssue → IssueContext → ValidationIssue
with_context issue context = record issue { context = some context }

pub record ValidationResult : Type 0 where
  pub issues : List ValidationIssue

unfoldable pub is_ok : ValidationResult → Bool
is_ok result = elim result.issues [ [] ↦ true | issue ∷ more ↦ false ]

unfoldable pub is_error : ValidationIssue → Bool
is_error issue = elim issue.level [ at_error ↦ true | at_warning ↦ false ]

unfoldable pub is_warning : ValidationIssue → Bool
is_warning issue = elim issue.level [ at_error ↦ false | at_warning ↦ true ]

unfoldable pub has_errors : ValidationResult → Bool
has_errors result = any is_error result.issues

unfoldable pub retained : (ValidationIssue → Bool) → List ValidationIssue → List ValidationIssue
retained p [] = []
retained p (issue ∷ more) = elim (p issue) [
  | true ↦ issue ∷ retained p more
  | false ↦ retained p more
]

unfoldable pub errors : ValidationResult → List ValidationIssue
errors result = retained is_error result.issues

unfoldable pub warnings : ValidationResult → List ValidationIssue
warnings result = retained is_warning result.issues
