-- ===== src/Params/Access.antt =====
-- What project/elec/module/src/ModParam.c gives out of its struct. A pointer to a field is the field.
use linux_comon.Prelude.{ℕ, Option, none, List, [], ◌∷◌, leb, get_elem?, if◌then◌else◌}
use linux_comon.Prelude.Int.{ℤ, pos}
use linux_comon.Meter.Alarm.{SigalPhaseAlarm, ConPhaseAlarm}
use linux_comon.Params.State.{DeviceInfo, WifiAp, MqttServer, ModParams, mqtt_topic_max}
use linux_comon.Radio.Text.{codes}

abbrev pub mqtt_topic : List (List ℕ)
mqtt_topic =
    codes "pep/test"
    ∷ codes "pep/test_display"
    ∷ codes "pep/test_event"
    ∷ codes "pep/test_detail"
    ∷ codes "pep/setting/mqtt"
    ∷ codes "pep/setting/reset"
    ∷ codes "pep/setting/dev"
    ∷ codes "pep/setting/topic"
    ∷ codes "pep/setting/param"
    ∷ []

-- none for NULL
unfoldable pub get_topic_name : ℕ → Option (List ℕ)
get_topic_name id = if leb mqtt_topic_max id then none else get_elem? mqtt_topic id

unfoldable pub get_uri : ModParams → List ℕ
get_uri g = g.mqtt_info.uri

unfoldable pub get_user_name : ModParams → List ℕ
get_user_name g = g.mqtt_info.username

unfoldable pub get_passwd : ModParams → List ℕ
get_passwd g = g.mqtt_info.password

unfoldable pub get_client_id : ModParams → List ℕ
get_client_id g = g.mqtt_info.clientid

unfoldable pub get_port : ModParams → ℕ
get_port g = g.mqtt_info.port

unfoldable pub get_device_info : ModParams → DeviceInfo
get_device_info g = g.dev_info

unfoldable pub get_network_configure : ModParams → ℕ
get_network_configure g = g.net_type

unfoldable pub get_wifi_info : ModParams → WifiAp
get_wifi_info g = g.wifi_info

unfoldable pub get_mqtt_server : ModParams → MqttServer
get_mqtt_server g = g.mqtt_info

unfoldable pub get_sigal_phase_event : ModParams → SigalPhaseAlarm
get_sigal_phase_event g = g.sigphase_info

unfoldable pub get_con_phase_event : ModParams → ConPhaseAlarm
get_con_phase_event g = g.conphase_info

abbrev pub hardware_version : List ℕ
hardware_version = codes "v1.0.0"

abbrev pub software_version : List ℕ
software_version = codes "v1.0.0"

-- `ModParamSave` saves nothing yet.
unfoldable pub mod_param_save : ModParams → ℤ × ModParams
mod_param_save g = (pos 0, g)
