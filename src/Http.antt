-- ===== src/Http.antt =====
-- The parts of `net/http` requests that the program reads. A request that the server has read has
-- a URL, so its field is not optional.
use casdoor_aiguard.Common.{Bool}
use casdoor_aiguard.Common.Text.{Str, codes}

pub record Url : Type 0 where
  pub path : Str
  pub raw_query : Str

-- `content_type` is `Header.Get("Content-Type")`: empty if the header is missing.
pub record Request : Type 0 where
  pub method : Str
  pub url : Url
  pub content_type : Str
  pub host : Str
  pub close : Bool

abbrev pub method_post : Str
method_post = codes "POST"
