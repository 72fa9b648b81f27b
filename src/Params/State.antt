-- ===== src/Params/State.antt =====
-- `g_MetetParam` of project/elec/module/src/ModParam.c, and the functions that set and get it
-- without the meter.
use linux_comon.Prelude.{
  ℕ, Option, none, some, List, [], ◌∷◌, ◌++◌, leb, ltb, ◌-◌, ◌==◌, ◌%◌, ◌^◌, if◌then◌else◌,
  get_elem?, set,
}
use linux_comon.Prelude.Int.{ℤ, pos, negsuc, minus_one}
use linux_comon.Meter.Alarm.{SigalPhaseAlarm, ConPhaseAlarm}
use linux_comon.Params.Strings.{◌>>=◌, c_string, strncpy, snprintf, unsigned_text, copy_string}

-- DeviceInfo_t
pub record DeviceInfo : Type 0 where
  pub label : List ℕ
  pub location : List ℕ
  pub type : List ℕ

-- MqttSever_t
pub record MqttServer : Type 0 where
  pub uri : List ℕ
  pub port : ℕ
  pub clientid : List ℕ
  pub username : List ℕ
  pub password : List ℕ

-- WifiAP_t
pub record WifiAp : Type 0 where
  pub apname : List ℕ
  pub appasswd : List ℕ

-- MqttTopic_t
pub record MqttTopic : Type 0 where
  pub state : ℕ
  pub period : ℕ

-- ModParams_t
pub record ModParams : Type 0 where
  pub magic : ℕ
  pub net_type : ℕ
  pub dev_info : DeviceInfo
  pub mqtt_info : MqttServer
  pub wifi_info : WifiAp
  pub sigphase_info : SigalPhaseAlarm
  pub conphase_info : ConPhaseAlarm
  pub topic : List MqttTopic

-- MQTT_TOPIC_MAX, MQTTSERVER_USERNAME_MAXLENGTH and MQTTSERVER_PASSWORD_MAXLENGTH
abbrev pub mqtt_topic_max : ℕ
mqtt_topic_max = 9

abbrev pub mqttserver_username_maxlength : ℕ
mqttserver_username_maxlength = 60

abbrev pub mqttserver_password_maxlength : ℕ
mqttserver_password_maxlength = 50

-- "tcp://"
abbrev pub tcp_prefix : List ℕ
tcp_prefix = 116 ∷ 99 ∷ 112 ∷ 58 ∷ 47 ∷ 47 ∷ []

-- The output for the format "tcp://%s:%u".
abbrev pub uri_text : List ℕ → ℕ → List ℕ
uri_text url port = tcp_prefix ++ (url ++ (58 ∷ unsigned_text port))

-- `url` is NULL or a string.
unfoldable pub set_uri : Option (List ℕ) → ℕ → ModParams → ℤ × ModParams
set_uri none port g = (minus_one, g)
set_uri (some url) port g = if port == 0 then (minus_one, g) else (
  pos 0,
  record g {
    mqtt_info = record g.mqtt_info {
      port = port;
      uri = snprintf g.mqtt_info.uri (uri_text url port);
    };
  },
)

-- A setter is none where it reads or writes behind an array.
unfoldable pub set_user_name : List ℕ → ModParams → Option (ℤ × ModParams)
set_user_name username g = do
  name ← strncpy g.mqtt_info.username username 59
  some (pos 0, record g { mqtt_info = record g.mqtt_info { username = name } })

unfoldable pub set_passwd : List ℕ → ModParams → Option (ℤ × ModParams)
set_passwd passwd g = do
  word ← strncpy g.mqtt_info.password passwd 49
  some (pos 0, record g { mqtt_info = record g.mqtt_info { password = word } })

unfoldable pub set_device_info : DeviceInfo → ModParams → Option (ℤ × ModParams)
set_device_info info g = do
  label ← copy_string g.dev_info.label info.label
  location ← copy_string g.dev_info.location info.location
  type ← copy_string g.dev_info.type info.type
  some (pos 0, record g { dev_info = record { label = label; location = location; type = type } })

unfoldable pub configure_network : ℕ → ModParams → ℤ × ModParams
configure_network net_type g = (pos 0, record g { net_type = net_type })

unfoldable pub configure_wifi : WifiAp → ModParams → Option (ℤ × ModParams)
configure_wifi conf g = do
  apname ← copy_string g.wifi_info.apname conf.apname
  appasswd ← copy_string g.wifi_info.appasswd conf.appasswd
  some (pos 0, record g { wifi_info = record { apname = apname; appasswd = appasswd } })

-- The string of `server->uri` goes to `set_uri`, whose result the code does not look at.
unfoldable pub set_mqtt_server : MqttServer → ModParams → Option (ℤ × ModParams)
set_mqtt_server server g = do
  url ← c_string server.uri
  let g' = (set_uri (some url) server.port g).1
  clientid ← copy_string g'.mqtt_info.clientid server.clientid
  username ← copy_string g'.mqtt_info.username server.username
  password ← copy_string g'.mqtt_info.password server.password
  some (
    pos 0,
    record g' {
      mqtt_info = record g'.mqtt_info {
        clientid = clientid;
        username = username;
        password = password;
      };
    },
  )

-- The state of a topic is a `uint8_t`, its period a `uint32_t`.
unfoldable pub set_topic_state : ℕ → ℕ → ℕ → ModParams → ℤ × ModParams
set_topic_state id period state g = if leb mqtt_topic_max id then (minus_one, g) else (
  pos 0,
  record g { topic = set g.topic id (record { state = state % 2 ^ 8; period = period }) },
)

-- An `int8_t`: a state above 127 turns negative.
abbrev pub int8 : ℕ → ℤ
int8 n = if ltb n 128 then pos n else negsuc (255 - n)

unfoldable pub get_state : ℕ → ModParams → ℤ
get_state id g =
    if leb mqtt_topic_max id
    then minus_one
    else elim (get_elem? g.topic id) [ none ↦ minus_one | some t ↦ int8 t.state ]

unfoldable pub get_period : ℕ → ModParams → ℕ
get_period id g =
    if leb mqtt_topic_max id
    then 0
    else elim (get_elem? g.topic id) [ none ↦ 0 | some t ↦ t.period ]
