-- ===== src/Proto.antt =====
-- The messages between the agent and the backend that carry traffic, proto/kerneleye/v1: what the Go code
-- under agent/ and backend/ reads and writes of them. `Reasons` is not carried.
use kerneleye.Base.{ℕ, Bool, List}
use kerneleye.Base.Str.{Str}
use kerneleye.Network.{Protocol}

pub data WireDirection : Type 0 where
  unspecified inbound outbound : WireDirection

pub data WireLevel : Type 0 where
  normal suspicious malicious : WireLevel

pub data WireType : Type 0 where
  no_threat port_scan service_abuse syn_flood failed_handshake connection_burst : WireType

-- Times are nanoseconds.
pub record ConnectionEvent : Type 0 where
  pub source_ip : Str
  pub destination_ip : Str
  pub destination_port : ℕ
  pub protocol : Protocol
  pub syn_count : ℕ
  pub ack_count : ℕ
  pub failed_handshakes : ℕ
  pub bytes_in : ℕ
  pub bytes_out : ℕ
  pub first_seen : ℕ
  pub last_seen : ℕ
  pub unique_ports_count : ℕ
  pub ports_accessed : List ℕ
  pub direction : WireDirection
  pub threat_score : ℕ
  pub threat_level : WireLevel
  pub threat_type : WireType
  pub icmp_packets_in : ℕ
  pub icmp_packets_out : ℕ
  pub connection_duration_ms : ℕ
  pub port_bytes_in : List (ℕ × ℕ)
  pub port_bytes_out : List (ℕ × ℕ)
  pub process_name : Str

pub record TrafficBatch : Type 0 where
  pub api_key : Str
  pub events : List ConnectionEvent
  pub total_events : ℕ
  pub aggregation_window_seconds : ℕ

pub record TrafficResponse : Type 0 where
  pub success : Bool
  pub message : Str
  pub events_processed : ℕ

-- What a call of an RPC gives: a response, or an error with its text.
pub data Reply : Type 0 where
  replied : TrafficResponse → Reply
  failed : Str → Reply
