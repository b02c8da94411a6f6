-- ===== src/Demo/Smoke.antt =====
-- examples/websocket/smoke/main.go: the client that sends one message and checks the answer.
use pucora_ce.Base.{ℕ, String, ◌<>◌, Bool, true, not, ◌&&◌, ◌≡◌, ◌≢◌, refl, ◌↔◌}
use pucora_ce.Base.{
  ◌⊎◌, inl, inr, Option, none, some, str_eq, eq_iff, arith, if◌then◌else◌, is_some, Option-cases,
  ap, ◌∙◌,
}
use pucora_ce.Base.Cut.{cut, trim, strip_prefix, strip_prefix_iff}
use pucora_ce.Base.Result.{Result, ok, err}

-- The flags, without the timeout.
pub record Flags : Type 0 where
  pub url : String
  pub message : String
  pub header : String
  pub expect : String
  pub expect_prefix : String

-- The header option: not given, not of the form `Key: Value`, or its two parts.
pub data Header : Type 0 where
  no_header invalid : Header
  given : String → String → Header

-- The connection, the message that is written and the reply that is read, each or its error.
pub record Client : Type 0 where
  pub dial : String → Header → Option String
  pub write : String → Option String
  pub read : Result String

pub split_header : Option (String × String) → Header
split_header none = invalid
split_header (some (k, v)) = given (trim k) (trim v)

unfoldable pub header_of : String → Header
unfolding split_header
header_of h = if str_eq h "" then no_header else split_header (cut ":" h)

is_prefix : String → String → Bool
is_prefix p s = is_some (strip_prefix p s)

-- The exit status of the `switch` on the reply.
unfoldable pub judged : Flags → String → ℕ
unfolding is_prefix
judged f got =
    if not (str_eq f.expect "") && not (str_eq got f.expect)
    then 1
    else if not (str_eq f.expect_prefix "") && not (is_prefix f.expect_prefix got)
    then 1
    else if str_eq f.expect "" && (str_eq f.expect_prefix "" && not (str_eq got f.message))
    then 1
    else 0

read_status : Flags → Result String → ℕ
read_status f (ok got) = judged f got
read_status f (err e) = 1

written_status : Flags → Client → Option String → ℕ
unfolding read_status
written_status f c none = read_status f c.read
written_status f c (some e) = 1

dialled_status : Flags → Client → Option String → ℕ
unfolding written_status
dialled_status f c none = written_status f c (c.write f.message)
dialled_status f c (some e) = 1

header_status : Flags → Client → Header → ℕ
unfolding dialled_status
header_status f c invalid = 2
header_status f c h = dialled_status f c (c.dial f.url h)

-- The exit status of `main`.
unfoldable pub main : Flags → Client → ℕ
unfolding header_of header_status
main f c = if str_eq f.url "" then 2 else header_status f c (header_of f.header)

-- A reply as the flags ask for it: the text expected, the prefix expected, and the message itself if
-- neither is given.
pub record IsExpected (f : Flags) (got : String) : Type 0 where
  pub whole : (f.expect ≡ "") ⊎ (got ≡ f.expect)
  pub start : (f.expect_prefix ≡ "") ⊎ ((rest : String) × (got ≡ f.expect_prefix <> rest))
  pub echo : (f.expect ≢ "") ⊎ ((f.expect_prefix ≢ "") ⊎ (got ≡ f.message))

is_prefix_iff : (p s : String) → (is_prefix p s ≡ true) ↔ ((r : String) × (s ≡ p <> r))
unfolding is_prefix
is_prefix_iff p s = elim (Option-cases (strip_prefix p s)) [
  | inl gone ↦ rw gone (
    (λ h. absurd (ground (arith, h))),
    (λ (r, e). absurd (ground (arith, gone, (strip_prefix_iff p s r).1 e))),
  )
  | inr (r, there) ↦ rw there ((λ h. (r, (strip_prefix_iff p s r).0 there)), (λ h. refl))
]

judged_iff : (f : Flags) (got : String) → (judged f got ≡ 0) ↔ IsExpected f got
unfolding judged
judged_iff f got = ground (
  arith,
  eq_iff f.expect "",
  eq_iff got f.expect,
  eq_iff f.expect_prefix "",
  eq_iff got f.message,
  is_prefix_iff f.expect_prefix got,
)

-- The write and the read succeed, with a reply as the flags ask for it.
abbrev pub IsAnswered : Flags → Client → Type 0
IsAnswered f c =
    (c.write f.message ≡ none) × ((got : String) × (c.read ≡ ok got) × IsExpected f got)

read_status_iff :
    (f : Flags) (o : Result String)
    → (read_status f o ≡ 0) ↔ ((got : String) × (o ≡ ok got) × IsExpected f got)
unfolding read_status
read_status_iff f (ok got) = (
  (λ h. (got, refl, (judged_iff f got).0 h)),
  (λ (g, e, x). ap (read_status f) e ∙ (judged_iff f g).1 x),
)
read_status_iff f (err e) = ground arith

written_status_iff :
    (f : Flags) (c : Client) (o : Option String)
    → (written_status f c o ≡ 0)
      ↔ ((o ≡ none) × ((got : String) × (c.read ≡ ok got) × IsExpected f got))
unfolding written_status
written_status_iff f c none = ground (arith, read_status_iff f c.read)
written_status_iff f c (some e) = ground arith

dialled_status_iff :
    (f : Flags) (c : Client) (o : Option String)
    → (dialled_status f c o ≡ 0) ↔ ((o ≡ none) × IsAnswered f c)
unfolding dialled_status
dialled_status_iff f c none = ground (arith, written_status_iff f c (c.write f.message))
dialled_status_iff f c (some e) = ground arith

header_status_iff :
    (f : Flags) (c : Client) (h : Header)
    → (header_status f c h ≡ 0) ↔ ((h ≢ invalid) × (c.dial f.url h ≡ none) × IsAnswered f c)
unfolding header_status
header_status_iff f c invalid = ground arith
header_status_iff f c no_header = ground (arith, dialled_status_iff f c (c.dial f.url no_header))
header_status_iff f c (given k v) =
    ground (arith, dialled_status_iff f c (c.dial f.url (given k v)))

-- The client exits with 0 exactly if a URL is given, the header option is absent or has a colon, the
-- connection, the write and the read succeed, and the reply is as the flags ask for it.
pub main-eq-zero_iff :
    (f : Flags) (c : Client)
    → (main f c ≡ 0) ↔ (
        (f.url ≢ "")
        × (header_of f.header ≢ invalid)
        × (c.dial f.url (header_of f.header) ≡ none)
        × IsAnswered f c)
unfolding main
main-eq-zero_iff f c = ground (arith, eq_iff f.url "", header_status_iff f c (header_of f.header))
