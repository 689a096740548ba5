-- ===== src/Api/Gateways.antt =====
-- Gateways and their listeners.
use kube_agentic_networking.Common.{ℕ, String, List, Option}
use kube_agentic_networking.Api.Meta.{ObjectMeta, LabelSelector}

pub data Protocol : Type 0 where
  http https tls tcp udp : Protocol
  other : String → Protocol

pub data FromNamespaces : Type 0 where
  all same selector none_from : FromNamespaces
  unknown : String → FromNamespaces

pub record RouteNamespaces : Type 0 where
  pub from : Option FromNamespaces
  pub selector : Option LabelSelector

pub record RouteGroupKind : Type 0 where
  pub group : Option String
  pub kind : String

pub record AllowedRoutes : Type 0 where
  pub namespaces : Option RouteNamespaces
  pub kinds : List RouteGroupKind

pub record Listener : Type 0 where
  pub name : String
  pub hostname : Option String
  pub port : ℕ
  pub protocol : Protocol
  pub allowed_routes : Option AllowedRoutes

pub record Gateway : Type 0 where
  pub meta : ObjectMeta
  pub gateway_class_name : String
  pub listeners : List Listener

pub record GatewayClass : Type 0 where
  pub meta : ObjectMeta
  pub controller_name : String
