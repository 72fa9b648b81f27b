-- ===== src/Params/Broker.antt =====
-- The address of the broker and its credentials in project/elec/module/src/ModParam.c.
use linux_comon.Prelude.{
  ℕ, ◌≡◌, ◌≢◌, refl, ◌∙◌, true, false, none, some, List, [], ◌∷◌, ◌++◌, ◌==◌, if◌then◌else◌, take,
  Bool-cases, inl, inr, ltb, zero, suc, ◌/◌, arith,
}
use linux_comon.Prelude.Int.{pos, minus_one}
use linux_comon.Params.Strings.{c_string, unsigned_text, decimal}
use linux_comon.Params.State.{MqttServer, ModParams, tcp_prefix, uri_text, set_uri, set_mqtt_server}
use linux_comon.Params.Terminated.{
  no_nul, IsString-c_string, copy_string-IsString, snprintf-IsString,
}
use linux_comon.Params.Setters.{ServerStrings, WellFormed, Sets}

no_nul-append : (xs ys : List ℕ) → no_nul xs ≡ true → no_nul ys ≡ true → no_nul (xs ++ ys) ≡ true
no_nul-append [] ys h k = k
no_nul-append (x ∷ xs) ys h k = ground (arith, no_nul-append xs ys)

no_nul-decimal : (fuel n : ℕ) → no_nul (decimal fuel n) ≡ true
no_nul-decimal zero n = refl
no_nul-decimal (suc fuel) n = elim (Bool-cases (ltb n 10)) [
  | inl last ↦ rw last (ground arith)
  | inr more ↦
      rw more
        (no_nul-append (decimal fuel (n / 10)) _ (no_nul-decimal fuel (n / 10)) (ground arith))
]

no_nul-uri_text : (url : List ℕ) (port : ℕ) → no_nul url ≡ true → no_nul (uri_text url port) ≡ true
no_nul-uri_text url port h =
    no_nul-append tcp_prefix (url ++ (58 ∷ unsigned_text port)) refl
      (no_nul-append url (58 ∷ unsigned_text port) h (no_nul-decimal 10 port))

-- `ModParamSetUri` refuses a missing URL and port 0 and changes nothing then. Any other URL and
-- port are stored: the URI is the text `tcp://<url>:<port>`, cut to 79 characters, and the struct
-- stays well formed.
pub set_uri_stores :
    {g : ModParams} (url : List ℕ) (port : ℕ)
    → WellFormed g
    → no_nul url ≡ true
    → port ≢ 0
    → let r = set_uri (some url) port g in
      (r.0 ≡ pos 0)
      × WellFormed r.1
      × (r.1.mqtt_info.port ≡ port)
      × (c_string r.1.mqtt_info.uri ≡ some (take 79 (uri_text url port)))
      × (set_uri none port g ≡ (minus_one, g))
      × (set_uri (some url) 0 g ≡ (minus_one, g))
unfolding set_uri
set_uri_stores {g} url port v h ne =
    let (uri, text) =
      snprintf-IsString (uri_text url port) v.server.uri (no_nul-uri_text url port h) in
    let some_port : (port == 0) ≡ false = ground arith in
    (
      rw some_port refl,
      rw some_port (record {
        device = v.device;
        wifi = v.wifi;
        server = record {
          uri = uri;
          clientid = v.server.clientid;
          username = v.server.username;
          password = v.server.password;
        };
        topics = v.topics;
      }),
      rw some_port refl,
      rw some_port text,
      refl,
      refl,
    )

set_uri_keeps :
    {g : ModParams} (url : List ℕ) (port : ℕ)
    → WellFormed g
    → no_nul url ≡ true
    → WellFormed (set_uri (some url) port g).1
      × ((set_uri (some url) port g).1.mqtt_info.port
          ≡ (if port == 0 then g.mqtt_info.port else port))
      × (c_string (set_uri (some url) port g).1.mqtt_info.uri
          ≡ (if port == 0 then c_string g.mqtt_info.uri else some (take 79 (uri_text url port))))
unfolding set_uri
set_uri_keeps {g} url port w h = elim (Bool-cases (port == 0)) [
  | inl zero_port ↦ rw (zero_port, set_uri) (w, refl, refl)
  | inr some_port ↦
      let (returns, stays, stored, text, no_url, no_port) =
        set_uri_stores url port w h (ground arith) in
      (stays, ground arith, text ∙ rw some_port refl)
]

-- A broker whose strings end in their arrays is stored: `ModParamSetMqttServer` overflows nothing
-- and returns 0, and the client id and the credentials are the given ones. If the port is 0, the port
-- and the URI stay; otherwise they are the given port and `tcp://<url>:<port>`, cut to 79 characters,
-- of the given URL.
pub set_mqtt_server_stores :
    {g : ModParams} (server : MqttServer)
    → WellFormed g
    → ServerStrings server
    → (s : Sets (set_mqtt_server server g)) × (c_string s.after.mqtt_info.clientid
        ≡ c_string server.clientid)
      × (c_string s.after.mqtt_info.username ≡ c_string server.username)
      × (c_string s.after.mqtt_info.password ≡ c_string server.password)
      × (s.after.mqtt_info.port ≡ (if server.port == 0 then g.mqtt_info.port else server.port))
      × ((url : List ℕ) × (c_string server.uri ≡ some url)
          × (c_string s.after.mqtt_info.uri ≡ (
              if server.port == 0
              then c_string g.mqtt_info.uri
              else some (take 79 (uri_text url server.port)))))
unfolding set_mqtt_server
set_mqtt_server_stores {g} server v i =
    let (url, e0, short, free) = IsString-c_string 79 server.uri i.uri in
    let (kept, same, text) = set_uri_keeps url server.port v free in
    let (clientid, e1, c, same1) = copy_string-IsString kept.server.clientid i.clientid in
    let (username, e2, u, same2) = copy_string-IsString kept.server.username i.username in
    let (password, e3, p, same3) = copy_string-IsString kept.server.password i.password in
    let g' = (set_uri (some url) server.port g).1 in
    (
      record {
        after = record g' {
          mqtt_info = record g'.mqtt_info {
            clientid = clientid;
            username = username;
            password = password;
          };
        };
        returns = rw (e0, e1, e2, e3) refl;
        still = record {
          device = kept.device;
          wifi = kept.wifi;
          server = record { uri = kept.server.uri; clientid = c; username = u; password = p };
          topics = kept.topics;
        };
      },
      same1,
      same2,
      same3,
      same,
      (url, e0, text),
    )
