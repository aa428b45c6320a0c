-- ===== src/Elf/Build/Output.antt =====
-- src/elf/build.rs: the output buffer, and the offsets at which segments are placed.
use elfex.Common.{ℕ, ◌-◌, ◌%◌, Bytes, ◌++◌, ◌&&◌, leb, ltb, ◌==◌, if◌then◌else◌, length, replicate}
use elfex.Common.Outcome.{
  Outcome, ok, panic, ◌>>=◌, ◌>>◌, reject_if, ok_or, checked_add, saturating_add, generic,
}
use elfex.Common.Slices.{splice}

-- `MAX_IMAGE`
abbrev pub max_image : ℕ
max_image = 0x10000000

unfoldable pub congruent : ℕ → ℕ → ℕ → ℕ
congruent cursor vaddr alignment =
    let target = vaddr % alignment in
    let current = cursor % alignment in
    if leb alignment 1
    then cursor
    else if current == target
    then cursor
    else if ltb current target
    then saturating_add cursor (target - current)
    else saturating_add cursor (alignment - (current - target))

-- `out.resize(end, 0)` where the buffer is shorter
unfoldable pub grown : Bytes → ℕ → Bytes
grown out end = if ltb (length out) end then out ++ replicate (end - length out) 0 else out

unfoldable pub write_at : Bytes → ℕ → Bytes → Outcome Bytes
write_at out offset bytes = do
  end ← ok_or (checked_add offset (length bytes)) (generic "image is too large")
  reject_if (ltb max_image end) (generic "serialized image exceeds the 256 MiB layout limit")
  ok (splice (grown out end) offset bytes)

-- `out[..end].copy_from_slice(bytes)`, which panics where the lengths differ
unfoldable pub copy_head : Bytes → ℕ → Bytes → Outcome Bytes
copy_head out end bytes =
    if leb end (length out) && length bytes == end then ok (splice out 0 bytes) else panic
