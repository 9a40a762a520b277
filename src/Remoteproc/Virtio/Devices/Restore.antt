-- ===== src/Remoteproc/Virtio/Devices/Restore.antt =====
-- lib/remoteproc/remoteproc.c: what `remoteproc_create_virtio` leaves where it fails, and that
-- `remoteproc_remove_virtio` undoes it where it succeeds.
use openamp.Remoteproc.{Remoteproc}
