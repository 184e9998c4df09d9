-- ===== src/Middleware/Jwt/Accepts.antt =====
-- Which requests `JWT` of internal/middleware/jwt.go lets through as a user's.
use Prim.Native.Char.{Char, code}
use Prim.Native.String.{String, [], ◌∷◌, ◌++◌}
use text.Mathlib.TextLemmas.{nil-append, cons-append, cons-eq-cons, cons-ne-nil}
use text.Mathlib.TextEquality.{Char-path}
use team_tasks.Base.{
  Bool, true, false, Option, none, some, ◌≡◌, ◌↔◌, refl, sym, ap, ◌∙◌, arith, str_eq, str_eq_iff,
  Bool-cases, inl, inr, if◌then◌else◌,
}
use team_tasks.Domain.{Time}
use team_tasks.Domain.Ids.{Uuid}
use team_tasks.Domain.Errors.{Error, Result, ok, err, plain}
use team_tasks.Middleware.Jwt.{
  Libraries, Token, Passage, passed, denied, cut_prefix, key_for, check_id, check_subject,
  check_token, check_bearer, jwt,
}

-- A prefix that is cut off stood there.
cut_prefix_lem : (p s r : String) → cut_prefix p s ≡ some r → s ≡ p ++ r
unfolding cut_prefix
cut_prefix_lem [] s r e = let is : s ≡ r = cc in is ∙ sym (nil-append r)
cut_prefix_lem (c ∷ p) [] r e = cc
cut_prefix_lem (c ∷ p) (d ∷ s) r e =
    let both : (code c ≡ code d) × (cut_prefix p s ≡ some r) = ground arith in
    let rest = cut_prefix_lem p s r both.1 in
    cons-eq-cons.1 (sym (Char-path c d both.0), rest) ∙ sym (cons-append c p r)

cut_prefix-append : (p s : String) → cut_prefix p (p ++ s) ≡ some s
unfolding cut_prefix
cut_prefix-append [] s = ap some (nil-append s)
cut_prefix-append (c ∷ p) s =
    let rest = cut_prefix-append p s in ap (cut_prefix (c ∷ p)) (cons-append c p s) ∙ ground arith

-- What is documented of `jwt.Parse`: it asks the key function for the key of the token's method, fails
-- where that fails, and otherwise checks the signature and the times of the token with that key.
pub record TokenParser (lib : Libraries) : Type 0 where
  -- Is the method of the token an HMAC?
  pub is_hmac : String → Bool
  -- The check with a key, at a time.
  pub checked : String → String → Time → Result Token
  pub with_key :
      (raw : String) (key : Bool → Result String) (now : Time) (k : String)
      → key (is_hmac raw) ≡ ok k
      → lib.jwt_parse raw key now ≡ checked raw k now
  pub without_key :
      (raw : String) (key : Bool → Result String) (now : Time) (e : Error)
      → key (is_hmac raw) ≡ err e
      → (x : Error) × (lib.jwt_parse raw key now ≡ err x)

-- The text behind `Bearer ` is a token by an HMAC that is good with the secret, and its subject is
-- the user.
abbrev pub IsTokenOf : (lib : Libraries) → TokenParser lib → String → Time → Uuid → String → Type 0
IsTokenOf lib parser secret now id raw =
    (token : Token) × (sub : String) × (parser.is_hmac raw ≡ true)
    × (parser.checked raw secret now ≡ ok token)
    × (token.valid ≡ true)
    × (token.subject ≡ ok sub)
    × (lib.uuid_parse sub ≡ ok id)

-- A token that `jwt.Parse` gives back with the key function of the middleware is by an HMAC and good
-- with the secret.
parsed-checked :
    (lib : Libraries) (parser : TokenParser lib) (secret : String) (now : Time) (raw : String)
    (token : Token)
    → lib.jwt_parse raw (key_for secret) now ≡ ok token
    → (parser.is_hmac raw ≡ true) × (parser.checked raw secret now ≡ ok token)
parsed-checked lib parser secret now raw token e = elim (Bool-cases (parser.is_hmac raw)) [
  | inl hmac ↦ (hmac, sym (parser.with_key raw (key_for secret) now secret (rw hmac refl)) ∙ e)
  | inr other ↦
      let (x, failed) =
        parser.without_key raw (key_for secret) now (plain "signature is invalid")
          (rw other refl) in
      let clash : ok token ≡ err x = sym e ∙ failed in cc
]

id_passed :
    (lib : Libraries) (r : Result Uuid) (id : Uuid) → check_id lib r ≡ passed (some id) → r ≡ ok id
id_passed lib (ok u) id e = cc
id_passed lib (err x) id e = cc

subject_passed :
    (lib : Libraries) (r : Result String) (id : Uuid)
    → check_subject lib r ≡ passed (some id)
    → (sub : String) × (r ≡ ok sub) × (lib.uuid_parse sub ≡ ok id)
subject_passed lib (ok sub) id e = (sub, refl, id_passed lib (lib.uuid_parse sub) id e)
subject_passed lib (err x) id e = cc

valid_passed :
    (lib : Libraries) (valid : Bool) (r : Result String) (id : Uuid)
    → (if valid then check_subject lib r else denied "invalid token") ≡ passed (some id)
    → (valid ≡ true) × (check_subject lib r ≡ passed (some id))
valid_passed lib true r id e = (refl, e)
valid_passed lib false r id e = cc

token_passed :
    (lib : Libraries) (r : Result Token) (id : Uuid)
    → check_token lib r ≡ passed (some id)
    → (token : Token) × (sub : String) × (r ≡ ok token)
      × (token.valid ≡ true)
      × (token.subject ≡ ok sub)
      × (lib.uuid_parse sub ≡ ok id)
token_passed lib (ok token) id e =
    let (valid, rest) = valid_passed lib token.valid token.subject id e in
    let (sub, subject, parsed) = subject_passed lib token.subject id rest in
    (token, sub, refl, valid, subject, parsed)
token_passed lib (err x) id e = cc

bearer_passed :
    (lib : Libraries) (parser : TokenParser lib) (secret : String) (now : Time) (id : Uuid)
    (o : Option String)
    → check_bearer lib secret now o ≡ passed (some id)
    → (raw : String) × (o ≡ some raw) × IsTokenOf lib parser secret now id raw
bearer_passed lib parser secret now id (some raw) e =
    let (token, sub, parsed, valid, subject, is) =
      token_passed lib (lib.jwt_parse raw (key_for secret) now) id e in
    let (hmac, checked) = parsed-checked lib parser secret now raw token parsed in
    (raw, refl, (token, sub, hmac, checked, valid, subject, is))
bearer_passed lib parser secret now id none e = cc

header_passed :
    (lib : Libraries) (empty : Bool) (p : Passage) (id : Uuid)
    → (if empty then passed none else p) ≡ passed (some id)
    → p ≡ passed (some id)
header_passed lib true p id e = cc
header_passed lib false p id e = e

jwt-IsTokenOf :
    (lib : Libraries) (parser : TokenParser lib) (secret : String) (now : Time) (auth : String)
    (id : Uuid)
    → jwt lib secret now auth ≡ passed (some id)
    → (raw : String) × (auth ≡ "Bearer " ++ raw) × IsTokenOf lib parser secret now id raw
unfolding jwt
jwt-IsTokenOf lib parser secret now auth id e =
    let rest = header_passed lib (str_eq auth "") _ id e in
    let (raw, cut, is) = bearer_passed lib parser secret now id (cut_prefix "Bearer " auth) rest in
    (raw, cut_prefix_lem "Bearer " auth raw cut, is)

abbrev letter_b : Char
letter_b = "B"

bearer-ne-empty : (raw : String) → str_eq ("Bearer " ++ raw) "" ≡ false
bearer-ne-empty raw = elim (Bool-cases (str_eq ("Bearer " ++ raw) "")) [
  | inl h ↦ absurd (
      cons-ne-nil _ _
        (sym (cons-append letter_b "earer " raw) ∙ (str_eq_iff ("Bearer " ++ raw) "").0 h))
  | inr h ↦ h
]

IsTokenOf-jwt :
    (lib : Libraries) (parser : TokenParser lib) (secret : String) (now : Time) (raw : String)
    (id : Uuid)
    → IsTokenOf lib parser secret now id raw
    → jwt lib secret now ("Bearer " ++ raw) ≡ passed (some id)
unfolding jwt
IsTokenOf-jwt lib parser secret now raw id (token, sub, hmac, checked, valid, subject, is) =
    let parsed : lib.jwt_parse raw (key_for secret) now ≡ ok token =
      parser.with_key raw (key_for secret) now secret (rw hmac refl) ∙ checked in
    rw (bearer-ne-empty raw, cut_prefix-append "Bearer " raw, parsed, valid, subject, is) refl

-- A request runs as a user's exactly if its header is `Bearer ` and a token by an HMAC that the
-- library finds good with the secret, and the user is the subject of the token.
pub jwt_iff :
    (lib : Libraries) (parser : TokenParser lib) (secret : String) (now : Time) (auth : String)
    (id : Uuid)
    → (jwt lib secret now auth ≡ passed (some id))
      ↔ ((raw : String) × (auth ≡ "Bearer " ++ raw) × IsTokenOf lib parser secret now id raw)
jwt_iff lib parser secret now auth id = (
  jwt-IsTokenOf lib parser secret now auth id,
  λ (raw, is, token). ap (jwt lib secret now) is ∙ IsTokenOf-jwt lib parser secret now raw id token,
)
