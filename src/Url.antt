-- ===== src/Url.antt =====
-- What the gateway reads of net/url, path and the third-party text packages, as the arguments of
-- the model: a parser of URLs, the text functions over runes, the tag stripper, the tokens.
use activity_pub_gw.Base.{Option}
use activity_pub_gw.Text.{Str, Runes}

-- The fields of url.URL that the gateway reads; `hostname` is the method Hostname.
pub record Url : Type 0 where
  pub scheme : Str
  pub host : Str
  pub hostname : Str
  pub path : Str

pub record Lib : Type 0 where
  -- url.Parse; none is its error.
  pub parse_url : Str → Option Url
  pub runes : Runes
  -- stripper.StripTags and the replacement of line-break tags by a regular expression.
  pub strip_tags : Str → Str
  pub break_lines : Str → Str
  -- A value of randomToken.
  pub token : Str
  -- domain.DefaultReaction.
  pub default_reaction : Str
