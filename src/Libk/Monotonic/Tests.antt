-- ===== src/Libk/Monotonic/Tests.antt =====
-- Five bytes at alignment 8 from a buffer at 100.
use java_script_os.Libk.Monotonic.{Resource}

abbrev buffer : Resource
buffer = record { current = 100; end = 200 }
