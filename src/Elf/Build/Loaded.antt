-- ===== src/Elf/Build/Loaded.antt =====
-- The mapped image at its preferred base: the headers that it begins with, and the segments.
use elfex.Header
use elfex.Header.RoundTrip as HeaderTrip
use elfex.Program.RoundTrip as ProgramTrip
