-- ===== src/Radio/Mutex/Calls.antt =====
-- The functions under `g_rf_mutex` of common/utils/rf/rf_common.c leave it as they find it.
use linux_comon.Prelude.{ℕ, Bool, Option, List}
use linux_comon.Prelude.Int.{ℤ}
use linux_comon.Radio.Modem.{Port}
use linux_comon.Radio.Info.{RfInfo, Manufacturer, rf_none, rf_quectel, rf_lynq, NwMode}
use linux_comon.Radio.Quectel.Device.{
  device_sim, device_sn, device_imei, get_rf_device_info_quectel,
}
use linux_comon.Radio.Quectel.Signal.{
  answer, update_ue_sys_info, update_pin_info, get_rssi, get_nwmode_quectel, update_sys_info,
  update_mcc, get_rf_signal_quectel,
}
use linux_comon.Radio.Quectel.Control.{
  expect_ok, soft_reset_quectel, nwscanmode_quectel, reset_cfun_quectel, sim_detect_enable_quectel,
  get_cfun_quectel, get_cpin_quectel, get_creg_quectel,
}
use linux_comon.Radio.Lynq.{
  get_rf_iccid_lynq, get_rf_device_info_lynq, update_ue_sys_info_lynq, update_pin_info_lynq,
  update_sys_info_lynq, get_rf_signal_lynq, soft_reset_lynq, reset_cfun_lynq, get_cfun_lynq,
  get_cpin_lynq, get_creg_lynq,
}
use linux_comon.Radio.Common.Requests.{
  cfun_request, sim_request, cpin_request, scanmode_request, nwmode_request, creg_request,
  soft_reset_request, cfun_reset_request,
}
use linux_comon.Radio.Mutex.{Keeps, keeps, Keeps-pure, Keeps-ask, Keeps-ask_into}

module _ {World : Type 0} (p : Port World) (dev : Option (List ℕ)) where
  pub Keeps-answer : (cmd name : List ℕ) → Keeps (answer p dev cmd name)
  unfolding answer
  Keeps-answer cmd name = search (keeps, Keeps-ask)

  pub Keeps-sim : (ret : ℤ) (resp : List ℕ) (i : RfInfo) → Keeps (device_sim p dev ret resp i)
  unfolding device_sim
  Keeps-sim ret resp i = search (keeps, Keeps-ask_into) depth 12

  pub Keeps-sn : (ret : ℤ) (resp : List ℕ) (i : RfInfo) → Keeps (device_sn p dev ret resp i)
  unfolding device_sn
  Keeps-sn ret resp i = search (keeps, Keeps-ask_into, Keeps-sim) depth 12

  pub Keeps-imei : (ret : ℤ) (resp : List ℕ) (i : RfInfo) → Keeps (device_imei p dev ret resp i)
  unfolding device_imei
  Keeps-imei ret resp i = search (keeps, Keeps-ask_into, Keeps-sn) depth 12

  pub Keeps-device_quectel : (i : RfInfo) → Keeps (get_rf_device_info_quectel p dev i)
  unfolding get_rf_device_info_quectel
  Keeps-device_quectel i = search (keeps, Keeps-ask_into, Keeps-imei) depth 12

  pub Keeps-ue : (i : RfInfo) → Keeps (update_ue_sys_info p dev i)
  unfolding update_ue_sys_info
  Keeps-ue i = search (keeps, Keeps-answer) depth 12

  pub Keeps-pin : (i : RfInfo) → Keeps (update_pin_info p dev i)
  unfolding update_pin_info
  Keeps-pin i = search (keeps, Keeps-answer) depth 12

  pub Keeps-rssi : (i : RfInfo) → Keeps (get_rssi p dev i)
  unfolding get_rssi
  Keeps-rssi i = search (keeps, Keeps-ask) depth 12

  pub Keeps-nwmode : (mode : NwMode) → Keeps (get_nwmode_quectel p dev mode)
  unfolding get_nwmode_quectel
  Keeps-nwmode mode = search (keeps, Keeps-ask) depth 12

  pub Keeps-sys : (i : RfInfo) → Keeps (update_sys_info p dev i)
  unfolding update_sys_info
  Keeps-sys i = search (keeps, Keeps-ask, Keeps-rssi) depth 12

  pub Keeps-mcc : (i : RfInfo) → Keeps (update_mcc p dev i)
  unfolding update_mcc
  Keeps-mcc i = search (keeps, Keeps-answer) depth 12

  pub Keeps-signal_quectel : (i : RfInfo) → Keeps (get_rf_signal_quectel p dev i)
  unfolding get_rf_signal_quectel
  Keeps-signal_quectel i = search (keeps, Keeps-ue, Keeps-pin, Keeps-sys, Keeps-mcc) depth 12

  pub Keeps-iccid : (i : RfInfo) → Keeps (get_rf_iccid_lynq p dev i)
  unfolding get_rf_iccid_lynq
  Keeps-iccid i = search (keeps, Keeps-ask) depth 12

  pub Keeps-device_lynq : (i : RfInfo) → Keeps (get_rf_device_info_lynq p dev i)
  unfolding get_rf_device_info_lynq
  Keeps-device_lynq i = search (keeps, Keeps-ask, Keeps-iccid) depth 15

  pub Keeps-signal_lynq : (i : RfInfo) → Keeps (get_rf_signal_lynq p dev i)
  unfolding get_rf_signal_lynq update_ue_sys_info_lynq update_pin_info_lynq update_sys_info_lynq
  Keeps-signal_lynq i = search (keeps, Keeps-ask) depth 25

  pub Keeps-expect_ok : (cmd : List ℕ) → Keeps (expect_ok p dev cmd)
  unfolding expect_ok
  Keeps-expect_ok cmd = search (keeps, Keeps-ask)

  pub Keeps-cfun : (m : Manufacturer) (c : ℤ) → Keeps (cfun_request p dev m c)
  unfolding get_cfun_lynq get_cfun_quectel
  Keeps-cfun rf_lynq c = search (keeps, Keeps-ask) depth 9
  Keeps-cfun rf_quectel c = search (keeps, Keeps-ask) depth 9
  Keeps-cfun rf_none c = Keeps-pure _

  pub Keeps-cpin : (m : Manufacturer) (c : ℤ) → Keeps (cpin_request p dev m c)
  unfolding get_cpin_lynq get_cpin_quectel
  Keeps-cpin rf_lynq c = search (keeps, Keeps-ask) depth 9
  Keeps-cpin rf_quectel c = search (keeps, Keeps-ask) depth 9
  Keeps-cpin rf_none c = Keeps-pure _

  pub Keeps-creg : (m : Manufacturer) (c : ℤ) → Keeps (creg_request p dev m c)
  unfolding get_creg_lynq get_creg_quectel
  Keeps-creg rf_lynq c = search (keeps, Keeps-ask) depth 9
  Keeps-creg rf_quectel c = search (keeps, Keeps-ask) depth 9
  Keeps-creg rf_none c = Keeps-pure _

  pub Keeps-sim_request : (m : Manufacturer) (e : Bool) (l : ℤ) → Keeps (sim_request p dev m e l)
  unfolding sim_detect_enable_quectel
  Keeps-sim_request rf_lynq e l = Keeps-pure _
  Keeps-sim_request rf_quectel e l = Keeps-expect_ok _
  Keeps-sim_request rf_none e l = Keeps-pure _

  pub Keeps-scanmode : (m : Manufacturer) → Keeps (scanmode_request p dev m)
  unfolding nwscanmode_quectel
  Keeps-scanmode rf_lynq = Keeps-pure _
  Keeps-scanmode rf_quectel = Keeps-expect_ok _
  Keeps-scanmode rf_none = Keeps-pure _

  pub Keeps-nwmode_request :
      (m : Manufacturer) (mode : NwMode) → Keeps (nwmode_request p dev m mode)
  Keeps-nwmode_request rf_lynq mode = Keeps-pure _
  Keeps-nwmode_request rf_quectel mode = Keeps-nwmode mode
  Keeps-nwmode_request rf_none mode = Keeps-pure _

  pub Keeps-soft_reset : (m : Manufacturer) → Keeps (soft_reset_request p dev m)
  unfolding soft_reset_lynq soft_reset_quectel
  Keeps-soft_reset rf_lynq = Keeps-expect_ok _
  Keeps-soft_reset rf_quectel = Keeps-expect_ok _
  Keeps-soft_reset rf_none = Keeps-pure _

  pub Keeps-cfun_reset : (m : Manufacturer) → Keeps (cfun_reset_request p dev m)
  unfolding reset_cfun_lynq reset_cfun_quectel
  Keeps-cfun_reset rf_lynq = search (keeps, Keeps-expect_ok)
  Keeps-cfun_reset rf_quectel = search (keeps, Keeps-expect_ok)
  Keeps-cfun_reset rf_none = Keeps-pure _
