-- ===== src/Http.antt =====
-- What the program sees of net/http: requests from px, and responses on their way back to it.
use px_smt_multirealm_shim.Common.{ℕ, Option}
use px_smt_multirealm_shim.Bytes.{Bytes}

pub data Method : Type 0 where
  get post patch delete : Method
  other : Bytes → Method

-- `r.Host`, `r.URL.Path` and `r.URL.RawQuery`, and the body that `drainBody` has read
pub record Request : Type 0 where
  pub method : Method
  pub host : Bytes
  pub path : Bytes
  pub raw_query : Bytes
  pub body : Bytes

-- A body that reads to its end, or one that fails after some bytes. `net/http` never hands a nil
-- body to `ModifyResponse`.
pub data Body : Type 0 where
  full : Bytes → Body
  broken : Bytes → Body

-- `content_length` is the field of that name, none for -1; `length_header` the header's value.
pub record Response : Type 0 where
  pub status : ℕ
  pub body : Body
  pub content_length : Option ℕ
  pub length_header : Option Bytes
  pub content_type : Option Bytes

-- the shim's own answer
pub record Synth : Type 0 where
  pub status : ℕ
  pub body : Bytes
