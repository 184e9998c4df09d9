-- ===== src/Memory/Sessions.antt =====
-- A token in memory is the text of its subject, and the text of an identifier is read back.
use Prim.Native.Char.{code}
use team_tasks.Base.{
  ℕ, zero, suc, ◌+◌, String, true, List, [], ◌∷◌, ◌==◌, ◌≡◌, refl, ap, sym, ◌∙◌, arith,
  if◌then◌else◌,
}
use team_tasks.Domain.Errors.{Result, ok, err}
use team_tasks.Middleware.Jwt.{Libraries, Token}
use team_tasks.Middleware.Jwt.Accepts.{TokenParser}
use team_tasks.Middleware.Sessions.{Agree}
use team_tasks.Memory.{tally, tallies}
use team_tasks.Memory.Users.{service}

abbrev counted : ℕ → String → List ℕ
counted n String.[] = []
counted n (String.◌∷◌ c s) = if code c == 120 then counted (suc n) s else n ∷ counted 0 s

counted-tally : (k n m : ℕ) (s : String) → k + n ≡ m → counted k (tally n s) ≡ m ∷ counted 0 s
counted-tally k zero m s h =
    let same : k ≡ m = omega (arith, h) in ap (λ (i : ℕ). i ∷ counted 0 s) same
counted-tally k (suc n) m s h = counted-tally (suc k) n m s (omega (arith, h))

counted-tallies : (a : List ℕ) → counted 0 (tallies a) ≡ a
counted-tallies [] = refl
counted-tallies (n ∷ a) =
    counted-tally 0 n n (tallies a) (omega arith) ∙ ap (λ (b : List ℕ). n ∷ b) (counted-tallies a)

abbrev checked_with : String → Result String → Result Token
checked_with raw (ok k) = ok (record { valid = true; subject = ok raw })
checked_with raw (err e) = err e

abbrev pub libraries : Libraries
libraries = record {
  jwt_parse = λ raw key now. checked_with raw (key true);
  uuid_parse = λ text. ok (record { bytes = counted 0 text });
}

-- Every token is by an HMAC, and good with every key.
abbrev pub parser : TokenParser libraries
parser = record {
  is_hmac = λ raw. true;
  checked = λ raw k now. ok (record { valid = true; subject = ok raw });
  with_key = λ raw key now k e. ap (checked_with raw) e;
  without_key = λ raw key now e failed. (e, ap (checked_with raw) failed);
}

pub service-Agree : Agree service libraries parser
service-Agree = record {
  accepted = λ secret token c now e early.
      let same : c.sub ≡ token = cc in
      (refl, ap (λ (t : String). ok (record { valid = true; subject = ok t })) (sym same));
  parsed = λ id. ap (λ (b : List ℕ). ok (record { bytes = b })) (counted-tallies id.bytes);
}
