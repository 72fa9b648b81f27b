-- ===== src/Sd/Monitor.antt =====
-- The loop of project/iot-gw/app/mount_sd.c: the walk over the devices that are there at the start, and
-- the events that follow.
use linux_comon.Prelude.{ℕ, Bool, ◌&&◌, Option, none, some, List, [], ◌∷◌, if◌then◌else◌}
use linux_comon.Prelude.Int.{is_minus_one}
use linux_comon.Sd.Names.{get_mount_point}
use linux_comon.Sd.Events.{
  Host, is_mount_point_in_use, is_sd_block_partition, mount_partition, on_create, on_delete,
}

-- struct inotify_event: the two bits of its mask, and its name, which may be empty.
pub record Event : Type 0 where
  pub in_create : Bool
  pub in_delete : Bool
  pub name : List ℕ

module _ {World : Type 0} (h : Host World) where
  -- A partition of the card that has a file system is mounted unless its directory is in use.
  unfoldable pub mount_existing : List ℕ → World → World
  mount_existing name w = elim (get_mount_point name) [
    | none ↦ w
    | some dir ↦
        let typed = h.has_filesystem name w in
        if typed.0
        then (if is_mount_point_in_use h dir typed.1
            then typed.1
            else (mount_partition h name dir typed.1).1)
        else typed.1
  ]

  unfoldable pub check_entry : List ℕ → Bool → World → World
  unfolding mount_existing
  check_entry name block w =
      if block && is_sd_block_partition h name w then mount_existing name w else w

  unfoldable pub check_entries : List (List ℕ × Bool) → World → World
  unfolding check_entry
  check_entries [] w = w
  check_entries ((name, block) ∷ entries) w = check_entries entries (check_entry name block w)

  unfoldable pub check_and_mount_existing_devices : World → World
  unfolding check_entries
  check_and_mount_existing_devices w = elim (h.list_dev w) [
    | none ↦ w
    | some entries ↦ check_entries entries w
  ]

  unfoldable pub handle_named : Event → List ℕ → World → World
  handle_named e name w =
      let created = if e.in_create then on_create h name w else w in
      if e.in_delete then on_delete h name created else created

  unfoldable pub handle_event : Event → World → World
  unfolding handle_named
  handle_event e w = elim e.name [ [] ↦ w | c ∷ cs ↦ handle_named e (c ∷ cs) w ]

  unfoldable pub handle_events : List Event → World → World
  unfolding handle_event
  handle_events [] w = w
  handle_events (e ∷ events) w = handle_events events (handle_event e w)

  -- The events of each `read`, or none for -1.
  unfoldable pub handle_reads : List (Option (List Event)) → World → World
  unfolding handle_events
  handle_reads [] w = w
  handle_reads (none ∷ reads) w = handle_reads reads w
  handle_reads (some events ∷ reads) w = handle_reads reads (handle_events events w)

  -- The world behind the reads so far; none where the program ends at the start.
  unfoldable pub monitor_sdcard : List (Option (List Event)) → World → Option World
  unfolding check_and_mount_existing_devices handle_reads
  monitor_sdcard reads w =
      let opened = h.inotify_init w in
      let watched = h.inotify_add_watch opened.0 opened.1 in
      if is_minus_one opened.0
      then none
      else if is_minus_one watched.0
      then none
      else some (handle_reads reads (check_and_mount_existing_devices watched.1))
