-- ===== src/Reloc/Classes.antt =====
-- The classification of relocation types and the widths they patch agree.
use elfex.Common.{ℕ, ◌≡◌, ◌≢◌, arith, some, ◌==◌, if◌then◌else◌}
use elfex.Reloc.{
  tls, other, relocation_kind, relocation_width, kind_x86_64, kind_i386, width_x86_64, width_i386,
}

kind_x86_64-width : (t : ℕ) → kind_x86_64 t ≢ other → width_x86_64 t ≡ some 8
unfolding kind_x86_64 width_x86_64
kind_x86_64-width t h = ground arith

kind_i386-width : (t : ℕ) → kind_i386 t ≢ other → kind_i386 t ≢ tls → width_i386 t ≡ some 4
unfolding kind_i386 width_i386
kind_i386-width t h k = ground arith

-- Every relocation type that is classified as neither TLS nor other patches a whole word of its
-- machine: eight bytes on x86-64, and four otherwise.
pub relocation_kind-width :
    (machine t : ℕ)
    → relocation_kind machine t ≢ other
    → relocation_kind machine t ≢ tls
    → relocation_width machine t ≡ some (if machine == 62 then 8 else 4)
unfolding relocation_kind relocation_width
relocation_kind-width machine t h k = ground (arith, kind_x86_64-width t, kind_i386-width t)
