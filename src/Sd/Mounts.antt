-- ===== src/Sd/Mounts.antt =====
-- What the events of project/iot-gw/app/mount_sd.c do to the mount points.
use linux_comon.Prelude.{ℕ, ◌≡◌, refl, true, false, Option, some, List, Bool-cases, inl, inr}
use linux_comon.Prelude.Int.{pos}
use linux_comon.Sd.Names.{get_mount_point}
use linux_comon.Sd.Events.{
  Host, starts_with, sd_device_name, is_mount_point_in_use, is_sd_block_partition,
  create_mount_point, mount_partition, unmount_partition, free_directory, on_create, on_delete,
}

-- What the system documents of a directory: a successful `mount` mounts the device there and puts the
-- directory into /proc/mounts, and a successful `umount` takes it out. `device_at` is the device that
-- the system has mounted at the directory.
pub record Mounts {World : Type 0} (h : Host World) (dir : List ℕ)
    (device_at : World → Option (List ℕ)) : Type 0 where
  pub mount_works :
      (device : List ℕ) (w : World)
      → (h.mount device dir w).0 ≡ pos 0
      → (is_mount_point_in_use h dir ((h.mount device dir w).1) ≡ true)
        × (device_at ((h.mount device dir w).1) ≡ some device)
  pub umount_works :
      (w : World)
      → (h.umount dir w).0 ≡ pos 0
      → is_mount_point_in_use h dir ((h.umount dir w).1) ≡ false

module _ {World : Type 0} {h : Host World} {dir : List ℕ} {device_at : World → Option (List ℕ)}
    (laws : Mounts h dir device_at) where
  free_directory-frees :
      (w : World)
      → (h.umount dir w).0 ≡ pos 0
      → is_mount_point_in_use h dir (free_directory h dir w) ≡ false
  unfolding free_directory unmount_partition
  free_directory-frees w gone = elim (Bool-cases (is_mount_point_in_use h dir w)) [
    | inl used ↦ rw (used, gone) (laws.umount_works w gone)
    | inr unused ↦ rw unused unused
  ]

  -- A directory that is free is mounted.
  mount_partition-mounts :
      (device : List ℕ) (w : World)
      → is_mount_point_in_use h dir w ≡ false
      → (h.mount device dir (create_mount_point h dir w)).0 ≡ pos 0
      → (is_mount_point_in_use h dir ((mount_partition h device dir w).1) ≡ true)
        × (device_at ((mount_partition h device dir w).1) ≡ some device)
  unfolding mount_partition
  mount_partition-mounts device w unused works =
      rw unused (laws.mount_works device (create_mount_point h dir w) works)

  -- The partition of a card that comes with a file system is mounted at the directory of its number,
  -- whatever was mounted there, if `umount` and `mount` work.
  pub on_create-mounts :
      (name : List ℕ) (w : World)
      → h.is_block name w ≡ true
      → is_sd_block_partition h name w ≡ true
      → get_mount_point name ≡ some dir
      → (h.has_filesystem name w).0 ≡ true
      → ((v : World) → (h.mount name dir v).0 ≡ pos 0)
      → ((v : World) → (h.umount dir v).0 ≡ pos 0)
      → (is_mount_point_in_use h dir (on_create h name w) ≡ true)
        × (device_at (on_create h name w) ≡ some name)
  unfolding on_create
  on_create-mounts name w block sd at typed works frees =
      let typed_world = (h.has_filesystem name w).1 in
      rw (block, sd, at, typed)
        (mount_partition-mounts name (free_directory h dir typed_world)
          (free_directory-frees typed_world (frees typed_world)) (works _))

  -- A device that is no part of the card, but whose name has the number of a partition, frees the
  -- directory of that partition when it goes, if `umount` works.
  on_delete-foreign :
      (name : List ℕ) (w : World)
      → starts_with sd_device_name name ≡ false
      → get_mount_point name ≡ some dir
      → (h.umount dir w).0 ≡ pos 0
      → (is_sd_block_partition h name w ≡ false)
        × (is_mount_point_in_use h dir (on_delete h name w) ≡ false)
  unfolding on_delete is_sd_block_partition
  on_delete-foreign name w foreign at gone =
      (rw foreign refl, rw (at, on_delete) (free_directory-frees w gone))
