-- ===== src/Common/Context.antt =====
-- src/error.rs: the locations that callers attach to an error.
use Prim.Native.Nat.{ℕ}
use Prim.Native.String.{String}
use elfex.Common.Outcome.{Error, ErrorContext}
use mathlib.Core.Option.{none, some}

-- `ErrorContext::default()`
unfoldable pub no_context : ErrorContext
no_context = record { offset = none; vaddr = none; structure = none }

-- `self.context.take().unwrap_or_default()`
unfoldable pub context_or_default : Error → ErrorContext
context_or_default e = elim e.context [ none ↦ no_context | some context ↦ context ]

unfoldable pub with_context : Error → ErrorContext → Error
with_context e context = record e { context = some context }

unfoldable pub at_offset : Error → ℕ → Error
at_offset e offset = with_context e (record (context_or_default e) { offset = some offset })

unfoldable pub at_vaddr : Error → ℕ → Error
at_vaddr e vaddr = with_context e (record (context_or_default e) { vaddr = some vaddr })

unfoldable pub in_structure : Error → String → Error
in_structure e name = with_context e (record (context_or_default e) { structure = some name })
