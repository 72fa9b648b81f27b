-- ===== src/Sd/Events.antt =====
-- The mounts of project/iot-gw/app/mount_sd.c, and its answer to an event of the directory /dev.
use linux_comon.Prelude.{
  ℕ, Bool, true, false, ◌&&◌, ◌||◌, Option, none, some, List, [], ◌∷◌, length, drop, ◌==◌,
  if◌then◌else◌,
}
use linux_comon.Prelude.Int.{ℤ, pos, minus_one, is_zero, is_minus_one}
use linux_comon.Sd.Names.{get_mount_point}

-- What the program asks of the system. A device is given by its name under /dev.
pub record Host (World : Type 0) : Type 0 where
  -- The lines of /proc/mounts; none if it cannot be opened.
  pub mounts : World → Option (List (List ℕ))
  pub exists : List ℕ → World → Bool
  pub mkdir : List ℕ → World → World
  -- `stat` finds a block device.
  pub is_block : List ℕ → World → Bool
  -- The uevent file of the block device can be opened and has a line with DEVTYPE=partition.
  pub uevent_partition : List ℕ → World → Bool
  -- `blkid` prints a type.
  pub has_filesystem : List ℕ → World → Bool × World
  pub mount : List ℕ → List ℕ → World → ℤ × World
  pub umount : List ℕ → World → ℤ × World
  pub umount_force : List ℕ → World → ℤ × World
  pub drop_caches : World → World
  -- The entries of /dev, and whether each is a block device; none if the directory does not open.
  pub list_dev : World → Option (List (List ℕ × Bool))
  pub inotify_init : World → ℤ × World
  -- IN_CREATE and IN_DELETE of /dev
  pub inotify_add_watch : ℤ → World → ℤ × World

-- strncmp(text, prefix, strlen(prefix)) == 0
abbrev pub starts_with : List ℕ → List ℕ → Bool
starts_with [] text = true
starts_with (p ∷ ps) [] = false
starts_with (p ∷ ps) (c ∷ cs) = let rest = starts_with ps cs in if p == c then rest else false

-- The first place in a line where `strstr` finds the text, as the character in front of it and what
-- stands behind it.
abbrev pub find_text : List ℕ → Option ℕ → List ℕ → Option (Option ℕ × List ℕ)
find_text text before [] =
    if starts_with text [] then some (before, drop (length text) []) else none
find_text text before (c ∷ cs) =
    let rest = find_text text (some c) cs in
    if starts_with text (c ∷ cs) then some (before, drop (length text) (c ∷ cs)) else rest

abbrev pub starts_word : Option ℕ → Bool
starts_word none = true
starts_word (some c) = c == 32

-- The next character is a blank, a tabulator or a line end.
abbrev pub ends_word : List ℕ → Bool
ends_word [] = false
ends_word (c ∷ cs) = (c == 32) || ((c == 9) || (c == 10))

abbrev pub line_names : List ℕ → List ℕ → Bool
line_names dir line = elim (find_text dir none line) [
  | none ↦ false
  | some place ↦ starts_word place.0 && ends_word place.1
]

abbrev pub any_line : List ℕ → List (List ℕ) → Bool
any_line dir [] = false
any_line dir (l ∷ ls) = let rest = any_line dir ls in if line_names dir l then true else rest

-- "mmcblk1"
abbrev pub sd_device_name : List ℕ
sd_device_name = 109 ∷ 109 ∷ 99 ∷ 98 ∷ 108 ∷ 107 ∷ 49 ∷ []

module _ {World : Type 0} (h : Host World) where
  unfoldable pub is_mount_point_in_use : List ℕ → World → Bool
  is_mount_point_in_use dir w = elim (h.mounts w) [ none ↦ false | some lines ↦ any_line dir lines ]

  unfoldable pub is_sd_block_partition : List ℕ → World → Bool
  is_sd_block_partition name w = starts_with sd_device_name name && h.uevent_partition name w

  unfoldable pub create_mount_point : List ℕ → World → World
  create_mount_point dir w = if h.exists dir w then w else h.mkdir dir w

  unfoldable pub mount_partition : List ℕ → List ℕ → World → ℤ × World
  mount_partition device dir w =
      if is_mount_point_in_use dir w
      then (pos 0, w)
      else (let r = h.mount device dir (create_mount_point dir w) in
          (if is_zero r.0 then pos 0 else minus_one, r.1))

  unfoldable pub unmount_partition : List ℕ → World → ℤ × World
  unmount_partition dir w =
      let r = h.umount dir w in
      let forced = h.umount_force dir r.1 in
      if is_minus_one r.0
      then (if is_zero forced.0 then (pos 0, h.drop_caches forced.1) else (minus_one, forced.1))
      else (pos 0, r.1)

  -- The directory is freed if it is in use.
  unfoldable pub free_directory : List ℕ → World → World
  free_directory dir w = if is_mount_point_in_use dir w then (unmount_partition dir w).1 else w

  -- The answer to IN_CREATE for a name that is not empty.
  unfoldable pub on_create : List ℕ → World → World
  on_create name w =
      if h.is_block name w && is_sd_block_partition name w
      then elim (get_mount_point name) [
        | none ↦ w
        | some dir ↦
            let typed = h.has_filesystem name w in
            if typed.0 then (mount_partition name dir (free_directory dir typed.1)).1 else typed.1
      ]
      else w

  -- The answer to IN_DELETE for a name that is not empty.
  unfoldable pub on_delete : List ℕ → World → World
  on_delete name w = elim (get_mount_point name) [ none ↦ w | some dir ↦ free_directory dir w ]
