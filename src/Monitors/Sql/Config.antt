-- ===== src/Monitors/Sql/Config.antt =====
-- About `_config_to_dict` and `_to_entity` of src/uptime_platform/monitors/sqlalchemy_repository.py.
use mathlib.Core.Path.{subst}
use uptime_platform.Base.{ℕ, ◌≡◌, refl, Option, none, some, String, List}
use uptime_platform.Base.Result.{ok}
use uptime_platform.Base.Json.{Conversions}
use uptime_platform.Monitors.Entities.{
  Monitor, MonitorConfig, MonitorType, HttpMethod, DnsRecordType,
}
use uptime_platform.Monitors.Service.Configs.{kind}
use uptime_platform.Monitors.Models.{
  config_to_dict, config_of, to_entity, method_of, method_value, record_type_of, record_type_value,
  codes_of, codes_json, text_of, text_json, with_lease, new_model,
}

method-roundtrip : (m : HttpMethod) → method_of (method_value m) ≡ ok m
method-roundtrip HttpMethod.get = refl
method-roundtrip HttpMethod.head = refl

record_type-roundtrip : (t : DnsRecordType) → record_type_of (record_type_value t) ≡ ok t
record_type-roundtrip DnsRecordType.a = refl
record_type-roundtrip DnsRecordType.aaaa = refl
record_type-roundtrip DnsRecordType.cname = refl
record_type-roundtrip DnsRecordType.mx = refl
record_type-roundtrip DnsRecordType.txt = refl

module _ (lib : Conversions) where
  codes-roundtrip : (codes : Option (List ℕ)) → codes_of lib (some (codes_json codes)) ≡ ok codes
  codes-roundtrip none = refl
  codes-roundtrip (some codes) = refl

  text-roundtrip : (value : Option String) → text_of lib (some (text_json value)) ≡ value
  text-roundtrip none = refl
  text-roundtrip (some s) = refl

  config_of-config_to_dict :
      (config : MonitorConfig) → config_of lib (kind config) (config_to_dict config) ≡ ok config
  unfolding config_of config_to_dict
  config_of-config_to_dict (MonitorConfig.http c) =
      rw
        (
          method-roundtrip c.method,
          codes-roundtrip c.expected_status_codes,
          text-roundtrip c.body_contains,
        )
        refl
  config_of-config_to_dict (MonitorConfig.tcp c) = refl
  config_of-config_to_dict (MonitorConfig.dns c) = rw (record_type-roundtrip c.record_type) refl
  config_of-config_to_dict (MonitorConfig.tls c) = refl
  config_of-config_to_dict (MonitorConfig.icmp c) = refl

  config_of-typed :
      (type : MonitorType) (config : MonitorConfig)
      → kind config ≡ type
      → config_of lib type (config_to_dict config) ≡ ok config
  config_of-typed type config t =
      subst (λ type. config_of lib type (config_to_dict config) ≡ ok config) t
        (config_of-config_to_dict config)

  -- A monitor whose configuration is of its type's class is read back from its row as it was
  -- written, whatever the lease of the row.
  pub to_entity-new_model :
      (m : Monitor) (token until : Option ℕ)
      → kind m.config ≡ m.monitor_type
      → to_entity lib (with_lease (new_model m) token until) ≡ ok m
  unfolding to_entity new_model
  to_entity-new_model m token until t = rw (config_of-typed m.monitor_type m.config t) refl
