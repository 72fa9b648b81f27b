-- ===== src/Sd/Arrivals.antt =====
-- What the loop of project/iot-gw/app/mount_sd.c does when a card comes.
use linux_comon.Prelude.{
  ℕ, ◌≡◌, refl, ap, ◌∙◌, true, false, Option, none, some, List, [], ◌∷◌, ◌++◌,
}
use linux_comon.Prelude.Int.{pos, is_minus_one}
use linux_comon.Sd.Names.{get_mount_point}
use linux_comon.Sd.Events.{Host, is_mount_point_in_use, is_sd_block_partition, on_create}
use linux_comon.Sd.Mounts.{Mounts, on_create-mounts}
use linux_comon.Sd.Monitor.{
  Event, handle_named, handle_event, handle_events, handle_reads, check_and_mount_existing_devices,
  monitor_sdcard,
}

module _ {World : Type 0} (h : Host World) where
  handle_events-last :
      (events : List Event) (e : Event) (w : World)
      → handle_events h (events ++ (e ∷ [])) w ≡ handle_event h e (handle_events h events w)
  unfolding handle_events
  handle_events-last [] e w = refl
  handle_events-last (f ∷ events) e w = handle_events-last events e (handle_event h f w)

  handle_reads-last :
      (reads : List (Option (List Event))) (events : List Event) (w : World)
      → handle_reads h (reads ++ (some events ∷ [])) w
        ≡ handle_events h events (handle_reads h reads w)
  unfolding handle_reads
  handle_reads-last [] events w = refl
  handle_reads-last (none ∷ reads) events w = handle_reads-last reads events w
  handle_reads-last (some l ∷ reads) events w = handle_reads-last reads events (handle_events h l w)

-- A partition of the card at a directory: a block device with a file system whose mount works,
-- as the unmount of what is at the directory does, whenever it is looked at.
pub record Card {World : Type 0} (h : Host World) (name dir : List ℕ) : Type 0 where
  pub block : (v : World) → h.is_block name v ≡ true
  pub partition : (v : World) → is_sd_block_partition h name v ≡ true
  pub directory : get_mount_point name ≡ some dir
  pub typed : (v : World) → (h.has_filesystem name v).0 ≡ true
  pub works : (v : World) → (h.mount name dir v).0 ≡ pos 0
  pub frees : (v : World) → (h.umount dir v).0 ≡ pos 0

-- Whatever devices are there at the start, whatever events come first and whatever device they leave
-- at the directory: when the last event is the creation of a partition of the card, that partition is
-- what is mounted at the directory of its number, and the directory is in use, if inotify, `mount` and
-- `umount` work as documented and both calls succeed for it.
pub monitor_sdcard-mount_partition :
    {World : Type 0} {h : Host World} {dir : List ℕ} {device_at : World → Option (List ℕ)} (c : ℕ)
    (cs : List ℕ) (reads : List (Option (List Event))) (events : List Event) (w : World)
    → Mounts h dir device_at
    → Card h (c ∷ cs) dir
    → is_minus_one (h.inotify_init w).0 ≡ false
    → is_minus_one (h.inotify_add_watch (h.inotify_init w).0 (h.inotify_init w).1).0 ≡ false
    → (let created : Event = record { in_create = true; in_delete = false; name = c ∷ cs } in
        (w' : World) × (monitor_sdcard h (reads ++ (some (events ++ (created ∷ [])) ∷ [])) w
          ≡ some w')
        × (is_mount_point_in_use h dir w' ≡ true)
        × (device_at w' ≡ some (c ∷ cs)))
unfolding monitor_sdcard handle_event handle_named
monitor_sdcard-mount_partition {h = h} {dir = dir} c cs reads events w laws card opened watched =
    let created : Event = record { in_create = true; in_delete = false; name = c ∷ cs } in
    let watch = h.inotify_add_watch (h.inotify_init w).0 (h.inotify_init w).1 in
    let before =
      handle_events h events (handle_reads h reads (check_and_mount_existing_devices h watch.1)) in
    let mounted =
      on_create-mounts laws (c ∷ cs) before (card.block before) (card.partition before)
        card.directory (card.typed before) card.works card.frees in
    (
      on_create h (c ∷ cs) before,
      rw (opened, watched)
          (ap some (
            handle_reads-last h reads (events ++ (created ∷ [])) _
            ∙ handle_events-last h events created _)),
      mounted.0,
      mounted.1,
    )
