-- ===== src/P2p/Protocol.antt =====
-- crates/p2p/src/protocol.rs: the codecs of the four request-response protocols. serde_json is
-- the record `Json`.
pub mod Exchange
use edge_orchestrator.Common.{ℕ, ◌*◌, ◌≡◌, Bool, true, false, Option, none, some, Bytes}
use mathlib.Core.Option
use edge_orchestrator.Types.{Hash, NodeDescriptor}
use edge_orchestrator.P2p.Stream.{Input, Output}
use edge_orchestrator.P2p.Framing.{
  IoError, invalid_data, Result, ok, err, write_length_prefixed, read_length_prefixed,
}

-- serde_json reads back what it wrote.
pub record Json (A : Type 0) : Type 0 where
  pub to_vec : A → Option Bytes
  pub from_slice : Bytes → Option A
  pub from_slice-to_vec : (a : A) (d : Bytes) → to_vec a ≡ some d → from_slice d ≡ some a

pub record DescriptorRequest : Type 0 where
  pub requester_id : Bytes

pub record DescriptorResponse : Type 0 where
  pub descriptor_json : Bytes

-- The descriptor is JSON inside the JSON of the response.
pub from_descriptor : Json NodeDescriptor → NodeDescriptor → Option DescriptorResponse
from_descriptor j desc = Option.map (λ s. record { descriptor_json = s }) (j.to_vec desc)

pub to_descriptor : Json NodeDescriptor → DescriptorResponse → Option NodeDescriptor
to_descriptor j r = j.from_slice r.descriptor_json

pub record RaftMessageRequest : Type 0 where
  pub data' : Bytes

pub record RaftMessageResponse : Type 0 where
  pub accepted : Bool

pub record BlobRequest : Type 0 where
  pub hash : Hash

pub record BlobResponse : Type 0 where
  pub hash : Hash
  pub found : Bool
  pub data' : Bytes

module _ (I : Input) (O : Output) where
  unfoldable pub write_serialized : O.Out → Option Bytes → O.Out × Result (Unit {0})
  write_serialized io none = (io, err invalid_data)
  write_serialized io (some d) = write_length_prefixed O io d

  unfoldable pub write_message : {A : Type 0} → Json A → O.Out → A → O.Out × Result (Unit {0})
  unfolding write_serialized
  write_message j io message = write_serialized io (j.to_vec message)

  parsed : {A : Type 0} → Option A → Result A
  parsed none = err invalid_data
  parsed (some a) = ok a

  parse : {A : Type 0} → Json A → I.In × Result Bytes → I.In × Result A
  unfolding parsed
  parse j (io, ok d) = (io, parsed (j.from_slice d))
  parse j (io, err e) = (io, err e)

  pub read_message : {A : Type 0} → Json A → I.In → ℕ → I.In × Result A
  unfolding parse
  read_message j io max_size = parse j (read_length_prefixed I io max_size)

  -- `request_response::Codec`
  pub record Codec (Request Response : Type 0) : Type 0 where
    pub read_request : I.In → I.In × Result Request
    pub read_response : I.In → I.In × Result Response
    pub write_request : O.Out → Request → O.Out × Result (Unit {0})
    pub write_response : O.Out → Response → O.Out × Result (Unit {0})

  -- Only the readers have a limit.
  abbrev pub codec :
      {Request Response : Type 0} → Json Request → Json Response → ℕ → ℕ → Codec Request Response
  codec q r request_max response_max = record {
    read_request = λ io. read_message q io request_max;
    read_response = λ io. read_message r io response_max;
    write_request = λ io m. write_message q io m;
    write_response = λ io m. write_message r io m;
  }

  abbrev pub descriptor_codec :
      Json DescriptorRequest → Json DescriptorResponse → Codec DescriptorRequest DescriptorResponse
  descriptor_codec q r = codec q r 128 (8 * 1024)

  abbrev pub raft_codec :
      Json RaftMessageRequest
      → Json RaftMessageResponse
      → Codec RaftMessageRequest RaftMessageResponse
  raft_codec q r = codec q r (16 * 1024 * 1024) 1024

  abbrev pub blob_codec : Json BlobRequest → Json BlobResponse → Codec BlobRequest BlobResponse
  blob_codec q r = codec q r (4 * 1024) (512 * 1024 * 1024)

  -- `ProjectTask` and `ProjectResult` pass through as they are.
  abbrev pub project_codec :
      {ProjectTask ProjectResult : Type 0}
      → Json ProjectTask
      → Json ProjectResult
      → Codec ProjectTask ProjectResult
  project_codec q r = codec q r (64 * 1024 * 1024) (64 * 1024 * 1024)
