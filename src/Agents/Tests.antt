-- ===== src/Agents/Tests.antt =====
-- Agents on servers whose answers are given: an SSM server that the other two functions do not understand.
use waok8s.Prelude.{ℕ, ◌≡◌, refl, ◌⊎◌, List, [], ◌∷◌, none, some, ok, err, Text, lit, In, All}
use waok8s.Prelude.Int64.{pos}
use waok8s.Agents.Http.{HttpError, Net}
use waok8s.Agents.Redfish.{ServerType, Decoders, InletTempAgent, get_inlet_temp_fns, try_server}
use waok8s.Agents.Redfish
use waok8s.Agents.Dpapi.{DeltaPAgent, SensorValue}
use waok8s.Agents.Dpapi
use waok8s.Agents.Fake
use waok8s.Agents.Laws.{fetch-detects}

abbrev net : Net Text
net = record {
  join_path = λ base elements. some base;
  new_request = λ method url body.
      some (record { method = method; url = url; body = body; basic_auth = none });
  send = λ req. some (200, req.url);
}

abbrev decoders : Decoders ℕ Text
decoders = record {
  decode_reading = λ body. none;
  decode_named_reading = λ body. some (lit "Fan", 7);
  decode_temperatures = λ body. some ((lit "CPU Temp", 60) ∷ (lit "System Temp", 24) ∷ []);
}

abbrev agent : InletTempAgent
agent = record { address = lit "http://bmc"; server_type = ServerType.auto_detect; editor_fns = [] }

abbrev all_types : List ServerType
all_types = ServerType.delli_drac ∷ ServerType.supermicro_ssm ∷ ServerType.lenovo_xclarity ∷ []

detected :
    Redfish.fetch net decoders all_types agent
    ≡ (ok 24, record agent { server_type = ServerType.supermicro_ssm })
unfolding waok8s.Agents.Redfish.fetch Redfish.get_inlet_temp_delli_drac
    Redfish.get_inlet_temp_supermicro_ssm
detected = refl

by_node_name :
    Dpapi.fetch {F = ℕ} net
      (λ (body : Text). some (record { sensor_id = lit "s"; pressure = 3; temperature = 26 } ∷ []))
      (record {
        address = lit "http://dp";
        sensor_name = [];
        node_name = lit "n0";
        node_ip = [];
        editor_fns = [];
      })
    ≡ ok 3
unfolding waok8s.Agents.Dpapi.fetch
by_node_name = refl

fake_value : Fake.fetch {F = ℕ} (pos 500) (Fake.new_inlet_temp_agent 15 none (pos 100)) ≡ ok 15
unfolding waok8s.Agents.Fake.fetch waok8s.Agents.Fake.new_inlet_temp_agent
fake_value = refl

fetch-detects_example :
    ((st : ServerType) × (v : ℕ) × In st all_types
      × (try_server net decoders agent st ≡ ok v)
      × (Redfish.fetch net decoders all_types agent ≡ (ok v, record agent { server_type = st }))
      × (Redfish.fetch net decoders [] (Redfish.fetch net decoders all_types agent).1
          ≡ Redfish.fetch net decoders all_types agent))
    ⊎ (All
          (λ (st : ServerType). (e : HttpError) × (try_server net decoders agent st ≡ err e))
          all_types
        × ((e : HttpError) × (Redfish.fetch net decoders all_types agent ≡ (err e, agent))))
unfolding get_inlet_temp_fns
fetch-detects_example = fetch-detects net decoders all_types [] agent refl
