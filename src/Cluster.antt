-- ===== src/Cluster.antt =====
-- The distributed cache's web services, distributed_cache/scaffold/app: models.py. The node and the
-- router are the children.
mod Tests
pub mod Node
pub mod Router
use sd_practice_qr_code_gene.Base.{ℕ, Option}
use sd_practice_qr_code_gene.Base.Int.{ℤ}
use sd_practice_qr_code_gene.Base.Text.{Text}

pub record CacheSetRequest : Type 0 where
  pub value : Text
  pub ttl : Option ℤ

pub record CacheSetResponse : Type 0 where
  pub key : Text
  pub node : Text

pub record CacheGetResponse : Type 0 where
  pub key : Text
  pub value : Text
  pub ttl_remaining : Option ℤ

pub record CacheDeleteResponse : Type 0 where
  pub key : Text

pub record RingResponse : Type 0 where
  pub key : Text
  pub node : Text
  pub virtual_nodes : ℕ

pub record ErrorResponse : Type 0 where
  pub error : Text
  pub key : Text
  pub node : Option Text

-- What a handler answers: its model, or a `JSONResponse` with the status of an error.
pub data Reply (A : Type 0) : Type 0 where
  ok : A → Reply A
  json : ℕ → ErrorResponse → Reply A
  -- the framework's answer to a path without a route, with no more than a `detail`
  detail : ℕ → Reply A
