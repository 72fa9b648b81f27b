-- ===== src/Radio/Mutex/Released.antt =====
-- Which functions of common/utils/rf/rf_common.c leave `g_rf_mutex` free.
use linux_comon.Prelude.{
  ℕ, zero, suc, ◌≡◌, refl, Bool, true, false, Option, none, some, List, [], ◌∷◌, if◌then◌else◌,
}
use linux_comon.Prelude.Int.{ℤ}
use linux_comon.Radio.Modem.{
  Port, Outcome, done, fault, blocked, Modem, M, ◌>>=◌, ◌>>◌, pure, lock, unlock,
}
use linux_comon.Radio.Info.{RfInfo, Manufacturer, rf_none, rf_quectel, rf_lynq, NwMode}
use linux_comon.Radio.Common.Status.{get_rf_module_info, update_rf_signal_info, update_rf_status}
use linux_comon.Radio.Common.Requests.{
  with_mutex, rf_get_cfun, rf_sim_detect, rf_get_cpin, rf_nw_scanmode, rf_get_nwmode, rf_get_creg,
  rf_soft_reset, rf_cfun_reset, rf_at_test, rf_at_cmd, find_rf_manufacture, get_dev_maxnum,
  access_dev_netpath, detect_request, rf_device_detect,
}
use linux_comon.Radio.Mutex.{Left, Keeps, keeps, Keeps-pure, Keeps-checked, Keeps-ask, Keeps-parse}
use linux_comon.Radio.Mutex.Calls.{
  Keeps-device_quectel, Keeps-signal_quectel, Keeps-device_lynq, Keeps-signal_lynq, Keeps-nwmode,
  Keeps-cfun, Keeps-cpin, Keeps-creg, Keeps-sim_request, Keeps-scanmode, Keeps-nwmode_request,
  Keeps-soft_reset, Keeps-cfun_reset,
}

-- Started with the mutex free, `x` does not wait for ever, and leaves the mutex free if it returns.
pub record Releases {World A : Type 0} (x : M World A) : Type 0 where
  pub started : (s : Modem World) → s.locked ≡ false → Left false (x s)

-- Started with the mutex held, `x` does not wait for ever, and leaves the mutex free if it returns.
record Frees {World A : Type 0} (x : M World A) : Type 0 where
  started : (s : Modem World) → s.locked ≡ true → Left false (x s)

module _ {World : Type 0} where
  pub Releases-Keeps : {A : Type 0} (x : M World A) → Keeps x → Releases x
  Releases-Keeps x k = record { started = λ s free. rw (← free) (k.started s) }

  left_bind :
      {A B : Type 0} (held : Bool) (o : Outcome (A × Modem World)) (f : A → M World B)
      → Left held o
      → ((a : A) (s : Modem World) → s.locked ≡ held → Left false (f a s))
      → Left false (elim o [ done r ↦ f r.0 r.1 | fault ↦ fault | blocked ↦ blocked ])
  left_bind held (done r) f h k = k r.0 r.1 h
  left_bind held fault f h k = h
  left_bind held blocked f h k = h

  pub Releases-bind :
      {A B : Type 0} (x : M World A) (f : A → M World B)
      → Releases x
      → ((a : A) → Releases (f a))
      → Releases (x >>= f)
  unfolding ◌>>=◌
  Releases-bind x f rx rf = record {
    started = λ s free. left_bind false (x s) f (rx.started s free) (λ a t. (rf a).started t);
  }

  pub Releases-pure : {A : Type 0} (a : A) → Releases {World = World} (pure a)
  unfolding pure
  Releases-pure a = record { started = λ s free. free }

  pub Releases-if :
      {A : Type 0} (b : Bool) {x y : M World A}
      → Releases x
      → Releases y
      → Releases (if b then x else y)
  Releases-if true rx ry = rx
  Releases-if false rx ry = ry

  Frees-bind :
      {A B : Type 0} (x : M World A) (f : A → M World B)
      → Keeps x
      → ((a : A) → Frees (f a))
      → Frees (x >>= f)
  unfolding ◌>>=◌
  Frees-bind x f k kf = record {
    started =
        λ s held. left_bind s.locked (x s) f (k.started s) λ a t e. (kf a).started t (rw e held);
  }

  Frees-unlock : {A : Type 0} (a : A) → Frees {World = World} (unlock >> pure a)
  unfolding ◌>>=◌ unlock pure
  Frees-unlock a = record { started = λ s held. refl }

  Releases-lock : {A : Type 0} (x : M World A) → Frees x → Releases (lock >> x)
  unfolding ◌>>=◌ lock
  Releases-lock x k = record {
    started = λ s free. rw free (k.started (record s { locked = true }) refl);
  }

  pub Releases-with_mutex : {A : Type 0} (x : M World A) → Keeps x → Releases (with_mutex x)
  unfolding with_mutex
  Releases-with_mutex x k = search (Releases-lock, Frees-bind, Frees-unlock, k)

module _ {World : Type 0} (p : Port World) where
  Keeps-access : (n : ℕ) → Keeps (access_dev_netpath p n)
  unfolding access_dev_netpath
  Keeps-access zero = Keeps-pure _
  Keeps-access (suc n) = search keeps

  Keeps-detect : (dev : List ℕ) → Keeps (detect_request p dev)
  unfolding detect_request get_dev_maxnum
  Keeps-detect dev = search (keeps, Keeps-access) depth 12

  Releases-at_cmd : (dev : Option (List ℕ)) (cmd : List ℕ) → Releases (rf_at_cmd p dev cmd)
  unfolding rf_at_cmd
  Releases-at_cmd dev cmd = Releases-if _ (Releases-pure _) (
      Releases-bind _ _ (Releases-Keeps _ (Keeps-checked _))
        λ at_cmd. Releases-with_mutex _ (search (keeps, Keeps-parse) depth 12))

  Releases-find : (dev : Option (List ℕ)) → Releases (find_rf_manufacture p dev)
  unfolding find_rf_manufacture
  Releases-find none = Releases-pure _
  Releases-find (some []) = Releases-pure _
  Releases-find (some (c ∷ cs)) = search (Releases-with_mutex, keeps, Keeps-ask) depth 12

  Keeps-module :
      (dev : Option (List ℕ)) (i : RfInfo) (m : Manufacturer) → Keeps (get_rf_module_info p dev i m)
  unfolding get_rf_module_info
  Keeps-module none i m = Keeps-pure _
  Keeps-module (some d) i rf_lynq = search (keeps, Keeps-device_lynq)
  Keeps-module (some d) i rf_quectel = Keeps-device_quectel p (some d) i
  Keeps-module (some d) i rf_none = Keeps-pure _

  Releases-signal :
      (dev : Option (List ℕ)) (i : RfInfo) (m : Manufacturer)
      → Releases (update_rf_signal_info p dev i m)
  unfolding update_rf_signal_info
  Releases-signal none i m = Releases-pure _
  Releases-signal (some d) i rf_lynq =
      search (Releases-lock, Frees-bind, Frees-unlock, Keeps-signal_lynq)
  Releases-signal (some d) i rf_quectel =
      search (Releases-lock, Frees-bind, Frees-unlock, Keeps-signal_quectel, Keeps-nwmode)
  Releases-signal (some d) i rf_none = search (Releases-lock, Frees-unlock)

  Releases-status :
      (dev : Option (List ℕ)) (i : RfInfo) (m : Manufacturer)
      → Releases (update_rf_status p dev i m)
  unfolding update_rf_status
  Releases-status dev i m =
      search (Releases-bind, Releases-Keeps, Releases-pure, Keeps-module, Releases-signal)

  Releases-cfun :
      (dev : Option (List ℕ)) (m : Manufacturer) (n : ℤ) → Releases (rf_get_cfun p dev m n)
  unfolding rf_get_cfun
  Releases-cfun dev m n = Releases-with_mutex _ (Keeps-cfun p dev m n)

  Releases-sim :
      (dev : Option (List ℕ)) (m : Manufacturer) (enable : Bool) (n : ℤ)
      → Releases (rf_sim_detect p dev m enable n)
  unfolding rf_sim_detect
  Releases-sim dev m enable n = Releases-with_mutex _ (Keeps-sim_request p dev m enable n)

  Releases-cpin :
      (dev : Option (List ℕ)) (m : Manufacturer) (n : ℤ) → Releases (rf_get_cpin p dev m n)
  unfolding rf_get_cpin
  Releases-cpin dev m n = Releases-with_mutex _ (Keeps-cpin p dev m n)

  Releases-scanmode : (dev : Option (List ℕ)) (m : Manufacturer) → Releases (rf_nw_scanmode p dev m)
  unfolding rf_nw_scanmode
  Releases-scanmode dev m = Releases-with_mutex _ (Keeps-scanmode p dev m)

  Releases-nwmode :
      (dev : Option (List ℕ)) (m : Manufacturer) (mode : NwMode)
      → Releases (rf_get_nwmode p dev m mode)
  unfolding rf_get_nwmode
  Releases-nwmode dev m mode = Releases-with_mutex _ (Keeps-nwmode_request p dev m mode)

  Releases-creg :
      (dev : Option (List ℕ)) (m : Manufacturer) (n : ℤ) → Releases (rf_get_creg p dev m n)
  unfolding rf_get_creg
  Releases-creg dev m n = Releases-with_mutex _ (Keeps-creg p dev m n)

  Releases-soft_reset :
      (dev : Option (List ℕ)) (m : Manufacturer) → Releases (rf_soft_reset p dev m)
  unfolding rf_soft_reset
  Releases-soft_reset dev m =
      search (Releases-bind, Releases-pure, Releases-with_mutex, Keeps-soft_reset)

  Releases-cfun_reset :
      (dev : Option (List ℕ)) (m : Manufacturer) → Releases (rf_cfun_reset p dev m)
  unfolding rf_cfun_reset
  Releases-cfun_reset dev m =
      search (Releases-bind, Releases-pure, Releases-with_mutex, Keeps-cfun_reset)

  Releases-at_test : (dev : Option (List ℕ)) → Releases (rf_at_test p dev)
  unfolding rf_at_test
  Releases-at_test dev = search (Releases-with_mutex, keeps, Keeps-ask)

  Releases-detect : (bytes : List ℕ) → Releases (rf_device_detect p bytes)
  unfolding rf_device_detect
  Releases-detect bytes = Releases-with_mutex _ (Keeps-detect bytes)

  -- Started with `g_rf_mutex` free, none of the thirteen functions of rf_common.c that talk to the
  -- module or look for its device waits for ever at the mutex, and each leaves it free whenever it
  -- returns, whatever the module, the line and the directory answer.
  pub requests_release :
      (dev : Option (List ℕ)) (m : Manufacturer) (s : Modem World) (n : ℤ) (enable : Bool)
      (mode : NwMode) (bytes : List ℕ) (i : RfInfo)
      → s.locked ≡ false
      → Left false (rf_get_cfun p dev m n s)
        × Left false (rf_sim_detect p dev m enable n s)
        × Left false (rf_get_cpin p dev m n s)
        × Left false (rf_nw_scanmode p dev m s)
        × Left false (rf_get_nwmode p dev m mode s)
        × Left false (rf_get_creg p dev m n s)
        × Left false (rf_soft_reset p dev m s)
        × Left false (rf_cfun_reset p dev m s)
        × Left false (rf_at_test p dev s)
        × Left false (rf_at_cmd p dev bytes s)
        × Left false (find_rf_manufacture p dev s)
        × Left false (rf_device_detect p bytes s)
        × Left false (update_rf_status p dev i m s)
  requests_release dev m s n enable mode bytes i free = (
    (Releases-cfun dev m n).started s free,
    (Releases-sim dev m enable n).started s free,
    (Releases-cpin dev m n).started s free,
    (Releases-scanmode dev m).started s free,
    (Releases-nwmode dev m mode).started s free,
    (Releases-creg dev m n).started s free,
    (Releases-soft_reset dev m).started s free,
    (Releases-cfun_reset dev m).started s free,
    (Releases-at_test dev).started s free,
    (Releases-at_cmd dev bytes).started s free,
    (Releases-find dev).started s free,
    (Releases-detect bytes).started s free,
    (Releases-status dev i m).started s free,
  )
