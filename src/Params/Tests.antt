-- ===== src/Params/Tests.antt =====
-- The setters of project/elec/module/src/ModParam.c run on a struct of zeros, and on a meter.
use linux_comon.Prelude.{
  ℕ, ◌≡◌, refl, none, some, List, [], ◌∷◌, ◌++◌, take, replicate, arith, true,
}
use linux_comon.Prelude.Int.{pos, minus_one}
use linux_comon.Meter.Modbus.{Driver, done}
use linux_comon.Meter.Alarm.{im3332_get_conphase_alarmevent}
use linux_comon.Meter.Tests.{
  bench, bench_file, zeros, connected, Holds-connected, conphase, no_limits,
}
use linux_comon.Params.Strings.{c_string, unsigned_text}
use linux_comon.Params.State.{
  DeviceInfo, MqttServer, WifiAp, ModParams, uri_text, set_uri, set_user_name, set_passwd,
  set_device_info, configure_wifi, set_mqtt_server, set_topic_state, get_state, get_period,
}
use linux_comon.Params.Reset.{zero_sigphase, zero_conphase, topic_on, wifi_ssid, null_text}
use linux_comon.Params.Events.{mod_param_reset, set_con_phase_event}
use linux_comon.Params.Setters.{
  DeviceStrings, WifiStrings, ServerStrings, WellFormed, Sets, setters_store,
}
use linux_comon.Params.Broker.{set_uri_stores, set_mqtt_server_stores}
use linux_comon.Params.Uuid.{int_to_str, all_hex_characters, number_from, number_from-int_to_str}
use linux_comon.Params.Topics.{topic_state_lem}
use linux_comon.Params.Coherence.{set_con_phase_event-coherent, mod_param_reset-reads}

text_test : unsigned_text 1883 ≡ 49 ∷ 56 ∷ 56 ∷ 51 ∷ []
text_test = refl

-- An array of `n` bytes that starts with the text.
abbrev array : List ℕ → ℕ → List ℕ
array text n = take n (text ++ replicate n 0)

abbrev device : DeviceInfo
device = record { label = array wifi_ssid 30; location = array null_text 50; type = array [] 20 }

abbrev wifi : WifiAp
wifi = record { apname = array wifi_ssid 20; appasswd = array null_text 20 }

abbrev server : MqttServer
server = record {
  uri = array wifi_ssid 80;
  port = 8883;
  clientid = array null_text 30;
  username = array null_text 60;
  password = array null_text 50;
}

abbrev params : ModParams
params = record {
  magic = 0;
  net_type = 0;
  dev_info = device;
  mqtt_info = server;
  wifi_info = wifi;
  sigphase_info = zero_sigphase;
  conphase_info = zero_conphase;
  topic = replicate 9 topic_on;
}

DeviceStrings-device : DeviceStrings device
DeviceStrings-device = record {
  label = record { sized = refl; ends = refl };
  location = record { sized = refl; ends = refl };
  type = record { sized = refl; ends = refl };
}

WifiStrings-wifi : WifiStrings wifi
WifiStrings-wifi = record {
  apname = record { sized = refl; ends = refl };
  appasswd = record { sized = refl; ends = refl };
}

ServerStrings-server : ServerStrings server
ServerStrings-server = record {
  uri = record { sized = refl; ends = refl };
  clientid = record { sized = refl; ends = refl };
  username = record { sized = refl; ends = refl };
  password = record { sized = refl; ends = refl };
}

WellFormed-params : WellFormed params
WellFormed-params = record {
  device = DeviceStrings-device;
  wifi = WifiStrings-wifi;
  server = ServerStrings-server;
  topics = refl;
}

set_uri_stores_example :
    let r = set_uri (some null_text) 1883 params in
    (r.0 ≡ pos 0)
    × WellFormed r.1
    × (r.1.mqtt_info.port ≡ 1883)
    × (c_string r.1.mqtt_info.uri ≡ some (take 79 (uri_text null_text 1883)))
    × (set_uri none 1883 params ≡ (minus_one, params))
    × (set_uri (some null_text) 0 params ≡ (minus_one, params))
set_uri_stores_example = set_uri_stores null_text 1883 WellFormed-params refl (ground arith)

set_mqtt_server_stores_example :
    (s : Sets (set_mqtt_server server params)) × (c_string s.after.mqtt_info.clientid
      ≡ some null_text)
    × (c_string s.after.mqtt_info.username ≡ some null_text)
    × (c_string s.after.mqtt_info.password ≡ some null_text)
    × (s.after.mqtt_info.port ≡ 8883)
    × ((url : List ℕ) × (c_string server.uri ≡ some url)
        × (c_string s.after.mqtt_info.uri ≡ some (take 79 (uri_text url 8883))))
set_mqtt_server_stores_example =
    set_mqtt_server_stores server WellFormed-params ServerStrings-server

topic_state_lem_example :
    let r = set_topic_state 3 500 255 params in
    (r.0 ≡ pos 0)
    × (get_state 3 r.1 ≡ minus_one)
    × (get_period 3 r.1 ≡ 500)
    × (get_state 4 r.1 ≡ get_state 4 params)
    × (get_period 4 r.1 ≡ get_period 4 params)
    × (set_topic_state 9 500 255 params ≡ (minus_one, params))
    × (get_state 9 params ≡ minus_one)
    × (get_period 9 params ≡ 0)
topic_state_lem_example =
    topic_state_lem 3 4 9 500 255 WellFormed-params (omega arith) (ground arith) (omega arith)

set_con_phase_event-coherent_example :
    (d1 d2 : Driver ℕ (ℕ → ℕ)) × (set_con_phase_event bench conphase params connected
      ≡ done (pos 0, record params { conphase_info = conphase }) d1)
    × (im3332_get_conphase_alarmevent bench no_limits d1 ≡ done (pos 0, conphase) d2)
set_con_phase_event-coherent_example =
    set_con_phase_event-coherent bench_file 7 conphase no_limits params zeros connected
      Holds-connected

mod_param_reset-reads_example :
    (g : ModParams) × (d1 d2 : Driver ℕ (ℕ → ℕ)) × (mod_param_reset bench connected
      ≡ done (some g) d1)
    × WellFormed g
    × (im3332_get_conphase_alarmevent bench no_limits d1 ≡ done (pos 0, g.conphase_info) d2)
mod_param_reset-reads_example =
    mod_param_reset-reads bench_file 7 no_limits zeros connected Holds-connected

number_from-int_to_str_example :
    let text = take 8 (int_to_str 0x3fffefd8 (replicate 9 0) 0 8) in
    (all_hex_characters text ≡ true) × (number_from 0 text ≡ 0x3fffefd8)
number_from-int_to_str_example = number_from-int_to_str 0x3fffefd8 (omega arith)

setters_store_example :
    ((s : Sets (set_user_name wifi_ssid params)) × (c_string s.after.mqtt_info.username
        ≡ some (take 59 wifi_ssid)))
    × ((s : Sets (set_passwd (replicate 60 65) params)) × (c_string s.after.mqtt_info.password
          ≡ some (take 49 (replicate 60 65))))
    × ((s : Sets (set_device_info device params)) × (c_string s.after.dev_info.label
          ≡ c_string device.label)
        × (c_string s.after.dev_info.location ≡ c_string device.location)
        × (c_string s.after.dev_info.type ≡ c_string device.type))
    × ((s : Sets (configure_wifi wifi params)) × (c_string s.after.wifi_info.apname
          ≡ c_string wifi.apname)
        × (c_string s.after.wifi_info.appasswd ≡ c_string wifi.appasswd))
setters_store_example =
    setters_store wifi_ssid (replicate 60 65) device wifi WellFormed-params refl refl
      DeviceStrings-device WifiStrings-wifi
