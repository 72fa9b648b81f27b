-- ===== src/Params/Reset.antt =====
-- `ModParamReset` of project/elec/module/src/ModParam.c and the strings that it sets, as characters.
use linux_comon.Prelude.{ℕ, ◌+◌, ◌/◌, Option, some, List, [], ◌∷◌, length, replicate, set}
use linux_comon.Meter.Alarm.{SigalPhaseAlarm, ConPhaseAlarm}
use linux_comon.Params.Strings.{◌>>=◌, strncpy}
use linux_comon.Params.State.{MqttTopic, ModParams, mqtt_topic_max}

-- DEF_MQTT_URI
abbrev pub default_uri : List ℕ
default_uri =
    116 ∷ 99 ∷ 112 ∷ 58 ∷ 47 ∷ 47 ∷ 109 ∷ 113 ∷ 116 ∷ 116 ∷ 45 ∷ 99 ∷ 110 ∷ 45 ∷ 55 ∷ 112 ∷ 112 ∷ 50
    ∷ 109 ∷ 99 ∷ 53 ∷ 55 ∷ 108 ∷ 48 ∷ 49 ∷ 46 ∷ 109 ∷ 113 ∷ 116 ∷ 116 ∷ 46 ∷ 97 ∷ 108 ∷ 105 ∷ 121
    ∷ 117 ∷ 110 ∷ 99 ∷ 115 ∷ 46 ∷ 99 ∷ 111 ∷ 109 ∷ 58 ∷ 49 ∷ 56 ∷ 56 ∷ 51 ∷ []

-- DEF_MQTT_USERNAME
abbrev pub default_username : List ℕ
default_username =
    83 ∷ 105 ∷ 103 ∷ 110 ∷ 97 ∷ 116 ∷ 117 ∷ 114 ∷ 101 ∷ 124 ∷ 76 ∷ 84 ∷ 65 ∷ 73 ∷ 53 ∷ 116 ∷ 78 ∷ 84
    ∷ 55 ∷ 119 ∷ 76 ∷ 77 ∷ 65 ∷ 77 ∷ 102 ∷ 76 ∷ 113 ∷ 111 ∷ 89 ∷ 120 ∷ 69 ∷ 99 ∷ 114 ∷ 66 ∷ 124
    ∷ 109 ∷ 113 ∷ 116 ∷ 116 ∷ 45 ∷ 99 ∷ 110 ∷ 45 ∷ 55 ∷ 112 ∷ 112 ∷ 50 ∷ 109 ∷ 99 ∷ 53 ∷ 55 ∷ 108
    ∷ 48 ∷ 49 ∷ []

-- DEF_MQTT_CLIENTID
abbrev pub default_clientid : List ℕ
default_clientid =
    71 ∷ 73 ∷ 68 ∷ 95 ∷ 80 ∷ 69 ∷ 80 ∷ 64 ∷ 64 ∷ 64 ∷ 117 ∷ 115 ∷ 114 ∷ 48 ∷ 48 ∷ 48 ∷ 57 ∷ []

-- DEF_MQTT_PASSWD
abbrev pub default_password : List ℕ
default_password =
    107 ∷ 52 ∷ 65 ∷ 71 ∷ 47 ∷ 57 ∷ 65 ∷ 51 ∷ 51 ∷ 116 ∷ 70 ∷ 66 ∷ 69 ∷ 78 ∷ 111 ∷ 102 ∷ 56 ∷ 98 ∷ 71
    ∷ 98 ∷ 50 ∷ 66 ∷ 74 ∷ 50 ∷ 72 ∷ 110 ∷ 81 ∷ 61 ∷ []

-- WIFI_SSID
abbrev pub wifi_ssid : List ℕ
wifi_ssid = 88 ∷ 68 ∷ 83 ∷ []

-- WIFI_PASSWORD
abbrev pub wifi_password : List ℕ
wifi_password = 54 ∷ 50 ∷ 54 ∷ 51 ∷ 57 ∷ 50 ∷ 48 ∷ 57 ∷ []

-- "null"
abbrev pub null_text : List ℕ
null_text = 110 ∷ 117 ∷ 108 ∷ 108 ∷ []

abbrev pub zeros : ℕ → List ℕ
zeros n = replicate n 0

abbrev pub zero_sigphase : SigalPhaseAlarm
zero_sigphase = record {
  vol_loss_vol_trigger_up_limit = 0;
  vol_loss_vol_recover_down_limit = 0;
  vol_loss_cur_trigger_downimit = 0;
  vol_under_vol_trigger_up_limit = 0;
  vol_over_vol_trigger_down_limit = 0;
  cur_loss_vol_trigger_down_limit = 0;
  cur_loss_cur_trigger_up_limit = 0;
  cur_loss_cur_trigger_down_limit = 0;
  cur_over_cur_trigger_down_limit = 0;
}

abbrev pub zero_conphase : ConPhaseAlarm
zero_conphase = record {
  total_power_factor_downimit = 0;
  current_unbalance_limit = 0;
  voltage_unbalance_limit = 0;
}

-- PARAM_MAGIC, NET_TYPE_4G, DEF_MQTT_PORT and MQTT_PUB_PERIOD
abbrev pub param_magic : ℕ
param_magic = 0x5a

abbrev pub net_type_4g : ℕ
net_type_4g = 0x10

abbrev pub default_port : ℕ
default_port = 1883

abbrev pub mqtt_pub_period : ℕ
mqtt_pub_period = 60000

abbrev pub topic_on : MqttTopic
topic_on = record { state = 1; period = mqtt_pub_period }

-- The topics after the loop and the two assignments behind it: MQTT_PUB_EVT is 2 and
-- MQTT_PUB_DETAIL is 3.
abbrev pub default_topics : List MqttTopic
default_topics =
    set (set (replicate mqtt_topic_max topic_on) 3 (record { state = 0; period = mqtt_pub_period }))
      2 (record { state = 1; period = mqtt_pub_period / 2 })

-- An array of zeros once `strncpy` has copied `n` bytes of a string into it.
abbrev pub initial : ℕ → List ℕ → ℕ → Option (List ℕ)
initial size text n = strncpy (zeros size) text n

-- `ModParamReset` up to its two calls of the driver; none if a string overflows its array.
unfoldable pub reset_strings : Option ModParams
unfolding strncpy
reset_strings = initial 30 null_text (length null_text + 1) >>= λ label.
    initial 50 null_text (length null_text + 1) >>= λ location.
    initial 20 null_text (length null_text + 1) >>= λ type.
    initial 80 default_uri (length default_uri) >>= λ uri.
    initial 30 default_clientid (length default_clientid + 1) >>= λ clientid.
    initial 60 default_username (length default_username + 1) >>= λ username.
    initial 50 default_password (length default_password + 1) >>= λ password.
    initial 20 wifi_ssid (length wifi_ssid + 1) >>= λ apname.
    initial 20 wifi_password (length wifi_password + 1) >>= λ appasswd. some (record {
      magic = param_magic;
      net_type = net_type_4g;
      dev_info = record { label = label; location = location; type = type };
      mqtt_info = record {
        uri = uri;
        port = default_port;
        clientid = clientid;
        username = username;
        password = password;
      };
      wifi_info = record { apname = apname; appasswd = appasswd };
      sigphase_info = zero_sigphase;
      conphase_info = zero_conphase;
      topic = default_topics;
    })
