-- ===== src/Tls/Cookies.antt =====
-- amizone/tlsclient/client.go: the jar that turns the cookies of net/http into those of the TLS library
-- and back.
use go_amizone.Base.{ℕ, ◌≡◌, refl, ap, Bool, List, [], ◌∷◌, Text, ℤ, map}

-- A cookie of net/http and one of the TLS library; `same_site` is a number in both.
pub record Cookie : Type 0 where
  pub name : Text
  pub value : Text
  pub path : Text
  pub domain : Text
  pub expires : ℕ
  pub raw_expires : Text
  pub max_age : ℤ
  pub secure : Bool
  pub http_only : Bool
  pub same_site : ℤ
  pub raw : Text
  pub unparsed : List Text

pub record TlsCookie : Type 0 where
  pub tls_name : Text
  pub tls_value : Text
  pub tls_path : Text
  pub tls_domain : Text
  pub tls_expires : ℕ
  pub tls_raw_expires : Text
  pub tls_max_age : ℤ
  pub tls_secure : Bool
  pub tls_http_only : Bool
  pub tls_same_site : ℤ
  pub tls_raw : Text
  pub tls_unparsed : List Text

unfoldable pub to_tls_cookie : Cookie → TlsCookie
to_tls_cookie c = record {
  tls_name = c.name;
  tls_value = c.value;
  tls_path = c.path;
  tls_domain = c.domain;
  tls_expires = c.expires;
  tls_raw_expires = c.raw_expires;
  tls_max_age = c.max_age;
  tls_secure = c.secure;
  tls_http_only = c.http_only;
  tls_same_site = c.same_site;
  tls_raw = c.raw;
  tls_unparsed = c.unparsed;
}

unfoldable pub from_tls_cookie : TlsCookie → Cookie
from_tls_cookie c = record {
  name = c.tls_name;
  value = c.tls_value;
  path = c.tls_path;
  domain = c.tls_domain;
  expires = c.tls_expires;
  raw_expires = c.tls_raw_expires;
  max_age = c.tls_max_age;
  secure = c.tls_secure;
  http_only = c.tls_http_only;
  same_site = c.tls_same_site;
  raw = c.tls_raw;
  unparsed = c.tls_unparsed;
}

-- What `SetCookies` gives the wrapped jar, and what `Cookies` makes of the jar's answer.
unfoldable pub set_cookies : List Cookie → List TlsCookie
unfolding to_tls_cookie
set_cookies cookies = map to_tls_cookie cookies

unfoldable pub cookies_of : List TlsCookie → List Cookie
unfolding from_tls_cookie
cookies_of cookies = map from_tls_cookie cookies

-- Cookies that a jar gives back as they were set come out as they went in.
pub cookies_of-set_cookies : (cookies : List Cookie) → cookies_of (set_cookies cookies) ≡ cookies
unfolding cookies_of set_cookies
cookies_of-set_cookies [] = refl
cookies_of-set_cookies (c ∷ cookies) = ap (λ cs. c ∷ cs) (cookies_of-set_cookies cookies)
