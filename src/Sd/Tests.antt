-- ===== src/Sd/Tests.antt =====
-- The monitor of project/iot-gw/app/mount_sd.c run on a host whose state is what is mounted.
use linux_comon.Prelude.{
  ℕ, ◌≡◌, ◌≢◌, refl, true, false, Option, none, some, drop, List, [], ◌∷◌, ◌++◌, arith,
}
use linux_comon.Prelude.Int.{pos}
use linux_comon.Params.Strings.{decimal}
use linux_comon.Radio.Text.{codes}
use linux_comon.Sd.Names.{get_mount_point, mnt_sdcard}
use linux_comon.Sd.Numbers.{mount_points_apart}
use linux_comon.Sd.Events.{Host, sd_device_name, is_mount_point_in_use, is_sd_block_partition}
use linux_comon.Sd.Mounts.{Mounts}
use linux_comon.Sd.Monitor.{Event, monitor_sdcard}
use linux_comon.Sd.Arrivals.{Card, monitor_sdcard-mount_partition}

-- "x <dir> y"
abbrev mount_line : List ℕ → List ℕ
mount_line dir = 120 ∷ 32 ∷ (dir ++ (32 ∷ 121 ∷ []))

-- The lines of /proc/mounts.
abbrev mount_lines : List (List ℕ × List ℕ) → List (List ℕ)
mount_lines [] = []
mount_lines ((device, dir) ∷ w) = mount_line dir ∷ mount_lines w

-- The device of the last mount.
abbrev last_device : List (List ℕ × List ℕ) → Option (List ℕ)
last_device [] = none
last_device ((device, dir) ∷ w) = some device

abbrev host : Host (List (List ℕ × List ℕ))
host = record {
  mounts = λ w. some (mount_lines w);
  exists = λ dir w. true;
  mkdir = λ dir w. w;
  is_block = λ name w. true;
  uevent_partition = λ name w. true;
  has_filesystem = λ name w. (true, w);
  mount = λ device dir w. (pos 0, (device, dir) ∷ w);
  umount = λ dir w. (pos 0, []);
  umount_force = λ dir w. (pos 0, []);
  drop_caches = λ w. w;
  list_dev = λ w. none;
  inotify_init = λ w. (pos 3, w);
  inotify_add_watch = λ fd w. (pos 1, w);
}

Mounts-host : Mounts host mnt_sdcard last_device
unfolding is_mount_point_in_use
Mounts-host = record { mount_works = λ d w h. (refl, refl); umount_works = λ w h. refl }

-- "mmcblk1p1"
abbrev sd_name : List ℕ
sd_name = sd_device_name ++ (112 ∷ 49 ∷ [])

mount_points_apart_example :
    get_mount_point (sd_device_name ++ (112 ∷ decimal 10 1))
    ≢ get_mount_point (sd_device_name ++ (112 ∷ decimal 10 2))
mount_points_apart_example =
    mount_points_apart sd_device_name sd_device_name 1 2 (ground arith) (ground arith) (omega arith)
      (omega arith) (ground arith)

Card-host : Card host sd_name mnt_sdcard
unfolding is_sd_block_partition get_mount_point
Card-host = record {
  block = λ v. refl;
  partition = λ v. refl;
  directory = refl;
  typed = λ v. refl;
  works = λ v. refl;
  frees = λ v. refl;
}

abbrev created : Event
created = record { in_create = true; in_delete = false; name = sd_name }

-- Another card is at the directory, and no event tells that it goes.
monitor_sdcard-mount_partition_example :
    (w' : List (List ℕ × List ℕ)) × (monitor_sdcard host
        (none ∷ some (created ∷ []) ∷ [])
        ((codes "mmcblk0p1", mnt_sdcard) ∷ [])
      ≡ some w')
    × (is_mount_point_in_use host mnt_sdcard w' ≡ true)
    × (last_device w' ≡ some sd_name)
monitor_sdcard-mount_partition_example =
    monitor_sdcard-mount_partition 109 (drop 1 sd_name) (none ∷ []) []
      ((codes "mmcblk0p1", mnt_sdcard) ∷ []) Mounts-host Card-host refl refl
