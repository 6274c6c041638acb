-- ===== src/Protocol/Kv.antt =====
-- src/protocol/src/kv.rs: the messages of the key-value service.
use robustmq_geek.Prelude.{Bool, Text}

pub record SetRequest : Type 0 where
  pub key : Text
  pub value : Text

pub record GetRequest : Type 0 where
  pub key : Text

pub record DeleteRequest : Type 0 where
  pub key : Text

pub record ExistsRequest : Type 0 where
  pub key : Text

pub record GetReply : Type 0 where
  pub value : Text

pub record ExistsReply : Type 0 where
  pub flag : Bool

pub data CommonReply : Type 0 where
  common_reply : CommonReply
