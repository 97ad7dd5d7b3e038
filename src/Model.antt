-- ===== src/Model.antt =====
-- sushi-proxy/internal/model: the configuration's data, as far as the modelled code reads it.
use sushi_gateway.Prelude.{ℕ, String, Bool, List, Option}
use sushi_gateway.Prelude.Int.{ℤ}

-- Text that the code walks byte by byte: paths.
abbrev pub Bytes : Type 0
Bytes = List ℕ

-- The string type LoadBalancingAlgorithm: its constants, and `other` for the empty string and
-- for any string that is none of them.
pub data LoadBalancingAlgorithm : Type 0 where
  round_robin weighted ip_hash least_connections latency consistent_hashing : LoadBalancingAlgorithm
  other : String → LoadBalancingAlgorithm

pub record UpstreamTarget : Type 0 where
  pub id : String
  pub target : String
  pub weight : ℤ
  pub tags : List String

pub record Health : Type 0 where
  pub enabled : Bool
  pub path : Bytes

pub record HealthyConfig : Type 0 where
  pub interval : ℤ
  pub successes : ℤ

pub record UnhealthyConfig : Type 0 where
  pub interval : ℤ
  pub http_failures : ℤ

pub record ActiveHealthCheck : Type 0 where
  pub healthy : Option HealthyConfig
  pub unhealthy : Option UnhealthyConfig
  pub http_path : Bytes
  pub timeout : ℤ

pub record PassiveHealthyConfig : Type 0 where
  pub successes : ℤ

pub record PassiveUnhealthyConfig : Type 0 where
  pub http_failures : ℤ
  pub tcp_failures : ℤ
  pub timeouts : ℤ

pub record PassiveHealthCheck : Type 0 where
  pub healthy : Option PassiveHealthyConfig
  pub unhealthy : Option PassiveUnhealthyConfig

pub record HealthCheckConfig : Type 0 where
  pub active : Option ActiveHealthCheck
  pub passive : Option PassiveHealthCheck

-- `config` is the plugin's own section, which only the plugin reads.
pub record PluginConfig : Type 0 where
  pub id : String
  pub name : String
  pub config : List (String × String)
  pub enabled : Option Bool

pub record Backend : Type 0 where
  pub name : String
  pub target : String
  pub path : Bytes

pub record Route : Type 0 where
  pub name : String
  pub path : Bytes
  pub paths : List Bytes
  pub methods : List String
  pub headers : List (String × String)
  pub upstream_tags : List String
  pub strip_path : Option Bool
  pub preserve_host : Option Bool
  pub plugins : List PluginConfig
  pub backends : List Backend

pub record RetryOptions : Type 0 where
  pub max_retries : ℤ
  pub retry_interval_ms : ℤ

pub record Service : Type 0 where
  pub name : String
  pub host : String
  pub url : String
  pub service_name : String
  pub protocol : String
  pub base_path : Bytes
  pub load_balancing_strategy : LoadBalancingAlgorithm
  pub upstreams : List UpstreamTarget
  pub plugins : List PluginConfig
  pub routes : List Route
  pub health : Health
  pub retry_options : RetryOptions
  pub upstream_health_checks : Option HealthCheckConfig

-- The string type HashOnType: its constants, the empty string, and any other string.
pub data HashOnType : Type 0 where
  hash_none hash_consumer hash_ip hash_header hash_cookie hash_path hash_query_arg : HashOnType
  hash_unset : HashOnType
  hash_other : String → HashOnType

pub record UpstreamConfig : Type 0 where
  pub name : String
  pub hash_on : HashOnType
  pub hash_fallback : HashOnType
  pub hash_on_header : String
  pub hash_on_cookie : String
  pub hash_on_cookie_path : String
  pub hash_on_query_arg : String
  pub targets : List UpstreamTarget

pub record ProxyConfig : Type 0 where
  pub name : String
  pub upstreams : List UpstreamConfig
  pub plugins : List PluginConfig
  pub services : List Service
