-- ===== src/Demo/Soap.antt =====
-- examples/soap/mock-backend/main.go: the mocked SOAP service.
use pucora_ce.Base.{ℕ, String, ◌<>◌, Bool, true, false, not, ◌&&◌, ◌≡◌, ◌≢◌, refl, ◌↔◌, ◌⊎◌}
use pucora_ce.Base.{
  Option, none, some, str_eq, eq_iff, arith, if◌then◌else◌, ap, ◌∙◌, Bool-cases, inl, inr,
}
use pucora_ce.Base.Cut.{cut, has, trim, OccursIn, IsNotBefore, cut_first, occurs_iff}
use pucora_ce.Base.Result.{Result, ok, err}

pub record Request : Type 0 where
  pub method : String
  pub soap_action : String
  -- What reading the body gives.
  pub body : Result String

-- The answer, which in the good case has the URL of the flag in a fixed document.
pub data Reply : Type 0 where
  method_not_allowed unauthorized : Reply
  bad_request : String → Reply
  flag : String → Reply

abbrev pub open_tag : String
open_tag = "<sCountryISOCode>"

abbrev pub close_tag : String
close_tag = "</sCountryISOCode>"

up_to_close : Option (String × String) → String
up_to_close none = ""
up_to_close (some (c, rest)) = trim c

after_open : Option (String × String) → String
unfolding up_to_close
after_open none = ""
after_open (some (before, rest)) = up_to_close (cut close_tag rest)

unfoldable pub extract_country_code : String → String
unfolding after_open
extract_country_code body = after_open (cut open_tag body)

flag_url : String → String
flag_url c = "http://www.example.com/flags/" <> (if str_eq c "" then "US" else c) <> ".jpg"

-- A user without the password.
unfoldable pub lacks_password : String → Bool
lacks_password body = has body "soapuser" && not (has body "soappass")

on_body : Result String → Reply
unfolding flag_url
on_body (err e) = bad_request e
on_body (ok body) =
    if lacks_password body then unauthorized else flag (flag_url (extract_country_code body))

-- `countryFlagHandler`, without the line that it logs for the action.
unfoldable pub country_flag_handler : Request → Reply
unfolding on_body
country_flag_handler r = if str_eq r.method "POST" then on_body r.body else method_not_allowed

-- What is written: an error of `http.Error`, or a content type and a body.
pub data Answer : Type 0 where
  failure : ℕ → String → Answer
  written : String → String → Answer

abbrev pub before_flag : String
before_flag =
    "<?xml version=\"1.0\" encoding=\"utf-8\"?>\n"
    <> "<Envelope xmlns:soap=\"http://schemas.xmlsoap.org/soap/envelope/\">\n" <> "  <Body>\n"
    <> "    <CountryFlagResponse xmlns:m=\"http://www.example.com/countryinfo\">\n"
    <> "      <CountryFlagResult>"

abbrev pub after_flag : String
after_flag =
    "</CountryFlagResult>\n" <> "    </CountryFlagResponse>\n" <> "  </Body>\n" <> "</Envelope>"

pub answer : Reply → Answer
answer method_not_allowed = failure 405 "method not allowed"
answer unauthorized = failure 401 "missing password in ws-security"
answer (bad_request e) = failure 400 e
answer (flag url) = written "text/xml; charset=utf-8" (before_flag <> url <> after_flag)

-- The code of a document is read back: what stands between the first opening tag and the first
-- closing tag after it comes out without the space around it.
pub extract_country_code_lem :
    (before c after : String)
    → IsNotBefore open_tag before (open_tag <> (c <> (close_tag <> after)))
    → IsNotBefore close_tag c (close_tag <> after)
    → extract_country_code (before <> (open_tag <> (c <> (close_tag <> after)))) ≡ trim c
unfolding extract_country_code
extract_country_code_lem before c after first_open first_close =
    ap after_open (cut_first open_tag before (c <> (close_tag <> after)) first_open)
    ∙ ap up_to_close (cut_first close_tag c after first_close)

-- The body does not name the user without the password.
abbrev pub IsAllowed : String → Type 0
IsAllowed body = (¬ OccursIn "soapuser" body) ⊎ OccursIn "soappass" body

lacks_password_iff : (body : String) → (lacks_password body ≡ false) ↔ IsAllowed body
unfolding lacks_password
lacks_password_iff body = ground (arith, occurs_iff "soapuser" body, occurs_iff "soappass" body)

-- The URL for a country code, which may be missing.
abbrev pub IsFlagOf : String → String → Type 0
IsFlagOf c url =
    ((c ≡ "") × (url ≡ "http://www.example.com/flags/US.jpg"))
    ⊎ ((c ≢ "") × (url ≡ "http://www.example.com/flags/" <> c <> ".jpg"))

flag_url_iff : (c url : String) → (flag_url c ≡ url) ↔ IsFlagOf c url
unfolding flag_url
flag_url_iff c url = elim (Bool-cases (str_eq c "")) [
  | inl e ↦ rw e (ground (arith, eq_iff c "", e))
  | inr e ↦ rw e (ground (arith, eq_iff c "", e))
]

guarded_iff :
    (b : Bool) (u url : String)
    → ((if b then unauthorized else flag u) ≡ flag url) ↔ ((b ≡ false) × (u ≡ url))
guarded_iff true u url = ground arith
guarded_iff false u url = ground arith

on_body_iff :
    (o : Result String) (url : String)
    → (on_body o ≡ flag url) ↔ (
        (body : String) × (o ≡ ok body) × IsAllowed body × IsFlagOf (extract_country_code body) url)
unfolding on_body
on_body_iff (err e) url = ground arith
on_body_iff (ok body) url = (
  (λ h.
      let (allowed, u) = (guarded_iff (lacks_password body) _ url).0 h in
      (
        body,
        refl,
        (lacks_password_iff body).0 allowed,
        (flag_url_iff (extract_country_code body) url).0 u,
      )),
  (λ (b, e, a, f).
      ap on_body e
      ∙ (guarded_iff (lacks_password b) _ url).1
          ((lacks_password_iff b).1 a, (flag_url_iff (extract_country_code b) url).1 f)),
)

-- A flag is answered exactly to a POST whose body can be read and does not name the user without the
-- password, with the URL of the country in the body, or of the United States if it names none.
pub country_flag_handler-flag_iff :
    (r : Request) (url : String)
    → (country_flag_handler r ≡ flag url) ↔ (
        (r.method ≡ "POST")
        × (body : String) × (r.body ≡ ok body)
        × IsAllowed body
        × IsFlagOf (extract_country_code body) url)
unfolding country_flag_handler
country_flag_handler-flag_iff r url = ground (arith, eq_iff r.method "POST", on_body_iff r.body url)
