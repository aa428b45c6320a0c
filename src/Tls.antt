-- ===== src/Tls.antt =====
-- src/tls.rs: thread-local storage metadata.
use elfex.Common.{ℕ, ◌-◌}
use elfex.Program.{ProgramHeader}

pub record TlsInfo : Type 0 where
  pub template_vaddr : ℕ
  pub file_size : ℕ
  pub mem_size : ℕ
  pub align : ℕ

unfoldable pub from_header : ProgramHeader → TlsInfo
from_header h = record {
  template_vaddr = h.vaddr;
  file_size = h.filesz;
  mem_size = h.memsz;
  align = h.align;
}

-- A saturating subtraction is that of ℕ.
unfoldable pub zero_fill_size : TlsInfo → ℕ
zero_fill_size t = t.mem_size - t.file_size
