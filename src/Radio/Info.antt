-- ===== src/Radio/Info.antt =====
-- RFINFO_T of common/utils/rf/rf_common.h, and `init_RF_info` of rf_common.c. A `char` array is the
-- list of its bytes.
use linux_comon.Prelude.{ℕ, Option, some, List}
use linux_comon.Prelude.Int.{ℤ, pos}
use linux_comon.Params.Strings.{strncpy, ◌>>=◌}
use linux_comon.Radio.Text.{codes}

-- RFSIGNAL_T
pub record RfSignal : Type 0 where
  pub freqband : List ℕ
  pub opmode : List ℕ
  pub sysmode : List ℕ
  pub cpin : List ℕ
  pub rsrq : ℤ
  pub rsrp : ℤ
  pub rssi : ℤ
  pub rssnr : ℤ
  pub sinr : ℤ
  pub signal_qos : ℕ

-- RFINFO_T
pub record RfInfo : Type 0 where
  pub manufacture : List ℕ
  pub plmn : List ℕ
  pub model : List ℕ
  pub rev : List ℕ
  pub sn : List ℕ
  pub imei : List ℕ
  pub ciccid : List ℕ
  pub rf_signal : RfSignal
  pub sim_status : List ℕ
  pub rfnet_connect_utctime : ℕ

-- RF_MANUFACT
pub data Manufacturer : Type 0 where
  rf_none rf_quectel rf_lynq : Manufacturer

-- RF_NWMODE
pub data NwMode : Type 0 where
  nwmode_none nwmode_2g nwmode_3g nwmode_4g : NwMode

-- RF_Signal_Qos
abbrev pub qos_worst : ℕ
qos_worst = 0

abbrev pub qos_bad : ℕ
qos_bad = 1

abbrev pub qos_normal : ℕ
qos_normal = 2

abbrev pub qos_good : ℕ
qos_good = 3

abbrev pub qos_best : ℕ
qos_best = 4

-- strncpy(array, default_str, strlen(default_str) + 1)
abbrev pub set_default : List ℕ → Option (List ℕ)
set_default array = strncpy array (codes "--") 3

-- 9999, which `init_RF_info` gives the numbers
abbrev pub no_number : ℤ
no_number = pos 9999

unfoldable pub init_rf_info : RfInfo → Option RfInfo
init_rf_info i = do
  manufacture ← set_default i.manufacture
  plmn ← set_default i.plmn
  model ← set_default i.model
  rev ← set_default i.rev
  sn ← set_default i.sn
  imei ← set_default i.imei
  ciccid ← set_default i.ciccid
  sim_status ← set_default i.sim_status
  freqband ← set_default i.rf_signal.freqband
  opmode ← set_default i.rf_signal.opmode
  sysmode ← set_default i.rf_signal.sysmode
  cpin ← set_default i.rf_signal.cpin
  some (record {
    manufacture = manufacture;
    plmn = plmn;
    model = model;
    rev = rev;
    sn = sn;
    imei = imei;
    ciccid = ciccid;
    rf_signal = record {
      freqband = freqband;
      opmode = opmode;
      sysmode = sysmode;
      cpin = cpin;
      rsrq = no_number;
      rsrp = no_number;
      rssi = no_number;
      rssnr = no_number;
      sinr = no_number;
      signal_qos = 0;
    };
    sim_status = sim_status;
    rfnet_connect_utctime = 0;
  })
