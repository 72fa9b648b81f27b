-- ===== src/Params/Setters.antt =====
-- What the string setters of project/elec/module/src/ModParam.c keep and store.
use linux_comon.Prelude.{ℕ, ◌≡◌, refl, true, Option, some, List, length, take}
use linux_comon.Prelude.Int.{ℤ, pos}
use linux_comon.Params.Strings.{c_string}
use linux_comon.Params.State.{
  DeviceInfo, MqttServer, WifiAp, ModParams, mqtt_topic_max, set_user_name, set_passwd,
  set_device_info, configure_wifi,
}
use linux_comon.Params.Reset.{reset_strings}
use linux_comon.Params.Terminated.{no_nul, IsString, copy_string-IsString, strncpy-IsString}

-- The arrays of the three structs have the sizes of project/elec/module/include/ModParam.h, and
-- end in NUL.
pub record DeviceStrings (d : DeviceInfo) : Type 0 where
  pub label : IsString 29 d.label
  pub location : IsString 49 d.location
  pub type : IsString 19 d.type

pub record WifiStrings (w : WifiAp) : Type 0 where
  pub apname : IsString 19 w.apname
  pub appasswd : IsString 19 w.appasswd

pub record ServerStrings (s : MqttServer) : Type 0 where
  pub uri : IsString 79 s.uri
  pub clientid : IsString 29 s.clientid
  pub username : IsString 59 s.username
  pub password : IsString 49 s.password

pub record WellFormed (g : ModParams) : Type 0 where
  pub device : DeviceStrings g.dev_info
  pub wifi : WifiStrings g.wifi_info
  pub server : ServerStrings g.mqtt_info
  pub topics : length g.topic ≡ mqtt_topic_max

-- The call neither reads nor writes behind an array, it returns 0, and the struct stays well formed.
pub record Sets (call : Option (ℤ × ModParams)) : Type 0 where
  pub after : ModParams
  pub returns : call ≡ some (pos 0, after)
  pub still : WellFormed after

-- `ModParamReset` overflows no array, and leaves the struct well formed.
pub reset_strings-WellFormed : (g : ModParams) × (reset_strings ≡ some g) × WellFormed g
unfolding reset_strings
reset_strings-WellFormed = (
  _,
  refl,
  record {
    device = record {
      label = record { sized = refl; ends = refl };
      location = record { sized = refl; ends = refl };
      type = record { sized = refl; ends = refl };
    };
    wifi = record {
      apname = record { sized = refl; ends = refl };
      appasswd = record { sized = refl; ends = refl };
    };
    server = record {
      uri = record { sized = refl; ends = refl };
      clientid = record { sized = refl; ends = refl };
      username = record { sized = refl; ends = refl };
      password = record { sized = refl; ends = refl };
    };
    topics = refl;
  },
)

-- Device information whose strings end in their arrays is stored whole: `ModParamSetDeviceInfo`
-- overflows nothing, and the three strings of the struct are the given ones.
set_device_info_stores :
    {g : ModParams} (info : DeviceInfo)
    → WellFormed g
    → DeviceStrings info
    → (s : Sets (set_device_info info g)) × (c_string s.after.dev_info.label ≡ c_string info.label)
      × (c_string s.after.dev_info.location ≡ c_string info.location)
      × (c_string s.after.dev_info.type ≡ c_string info.type)
unfolding set_device_info
set_device_info_stores {g} info v i =
    let (label, e1, l, same1) = copy_string-IsString v.device.label i.label in
    let (location, e2, o, same2) = copy_string-IsString v.device.location i.location in
    let (type, e3, t, same3) = copy_string-IsString v.device.type i.type in
    (
      record {
        after = record g { dev_info = record { label = label; location = location; type = type } };
        returns = rw (e1, e2, e3) refl;
        still = record {
          device = record { label = l; location = o; type = t };
          wifi = v.wifi;
          server = v.server;
          topics = v.topics;
        };
      },
      same1,
      same2,
      same3,
    )

-- The same of `ModParamConfigureWifi`.
configure_wifi_stores :
    {g : ModParams} (conf : WifiAp)
    → WellFormed g
    → WifiStrings conf
    → (s : Sets (configure_wifi conf g)) × (c_string s.after.wifi_info.apname
        ≡ c_string conf.apname)
      × (c_string s.after.wifi_info.appasswd ≡ c_string conf.appasswd)
unfolding configure_wifi
configure_wifi_stores {g} conf v i =
    let (apname, e1, a, same1) = copy_string-IsString v.wifi.apname i.apname in
    let (appasswd, e2, p, same2) = copy_string-IsString v.wifi.appasswd i.appasswd in
    (
      record {
        after = record g { wifi_info = record { apname = apname; appasswd = appasswd } };
        returns = rw (e1, e2) refl;
        still = record {
          device = v.device;
          wifi = record { apname = a; appasswd = p };
          server = v.server;
          topics = v.topics;
        };
      },
      same1,
      same2,
    )

-- `ModParamSetUserName` and `ModParamSetPasswd` take a string of any length: nothing overflows, and
-- the struct holds its first 59 and 49 characters.
credentials_store :
    {g : ModParams} (username passwd : List ℕ)
    → WellFormed g
    → no_nul username ≡ true
    → no_nul passwd ≡ true
    → ((s : Sets (set_user_name username g)) × (c_string s.after.mqtt_info.username
          ≡ some (take 59 username)))
      × ((s : Sets (set_passwd passwd g)) × (c_string s.after.mqtt_info.password
            ≡ some (take 49 passwd)))
unfolding set_user_name set_passwd
credentials_store {g} username passwd v u w =
    let (name, e1, n, same1) = strncpy-IsString username v.server.username u in
    let (word, e2, p, same2) = strncpy-IsString passwd v.server.password w in
    (
      (
        record {
          after = record g { mqtt_info = record g.mqtt_info { username = name } };
          returns = rw e1 refl;
          still = record {
            device = v.device;
            wifi = v.wifi;
            server = record {
              uri = v.server.uri;
              clientid = v.server.clientid;
              username = n;
              password = v.server.password;
            };
            topics = v.topics;
          };
        },
        same1,
      ),
      (
        record {
          after = record g { mqtt_info = record g.mqtt_info { password = word } };
          returns = rw e2 refl;
          still = record {
            device = v.device;
            wifi = v.wifi;
            server = record {
              uri = v.server.uri;
              clientid = v.server.clientid;
              username = v.server.username;
              password = p;
            };
            topics = v.topics;
          };
        },
        same2,
      ),
    )

-- In a well-formed struct the setters of the user name and the password, of the device and of the
-- wireless network overflow no array, keep the struct well-formed and store their strings: the user
-- name cut to 59 characters, the password to 49, and the others whole. The strings hold no NUL, and
-- those of the device and of the network end in their arrays.
pub setters_store :
    {g : ModParams} (username passwd : List ℕ) (info : DeviceInfo) (conf : WifiAp)
    → WellFormed g
    → no_nul username ≡ true
    → no_nul passwd ≡ true
    → DeviceStrings info
    → WifiStrings conf
    → ((s : Sets (set_user_name username g)) × (c_string s.after.mqtt_info.username
          ≡ some (take 59 username)))
      × ((s : Sets (set_passwd passwd g)) × (c_string s.after.mqtt_info.password
            ≡ some (take 49 passwd)))
      × ((s : Sets (set_device_info info g)) × (c_string s.after.dev_info.label
            ≡ c_string info.label)
          × (c_string s.after.dev_info.location ≡ c_string info.location)
          × (c_string s.after.dev_info.type ≡ c_string info.type))
      × ((s : Sets (configure_wifi conf g)) × (c_string s.after.wifi_info.apname
            ≡ c_string conf.apname)
          × (c_string s.after.wifi_info.appasswd ≡ c_string conf.appasswd))
setters_store username passwd info conf v u w d n = (
  (credentials_store username passwd v u w).0,
  (credentials_store username passwd v u w).1,
  set_device_info_stores info v d,
  configure_wifi_stores conf v n,
)
