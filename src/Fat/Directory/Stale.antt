-- ===== src/Fat/Directory/Stale.antt =====
-- What `fat32_find` finds on the memory disk when its first read finds its arguments out of range.
use lumen_os.Memory.{Memory}
