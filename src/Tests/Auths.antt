-- ===== src/Tests/Auths.antt =====
-- Requests, tokens and a lockout at concrete values. The digest is the text itself here.
use deployer.Base.{
  Text, ℕ, List, codes, some, true, false, [], ◌∷◌, ◌++◌, refl, ◌≡◌, ◌*◌, arith, text_eq,
  if◌then◌else◌, All,
}
use deployer.Domain.Image.{is_space}
use deployer.Identity.Limiter.{
  Limiter, sign_in_settings, second, new_limiter, succeeded, locked_out,
}
use deployer.Auth.{Account, Token, nobody, too_many_attempts}
use deployer.Auth.Bearer.{Resolved, resolved, unknown, Verifier, authenticate, refuse, is_locked}
use deployer.Auth.Bearer.Gate.{authenticate-penalty, Judged}
use deployer.Auth.Bearer.Flood.{Try, lockout_after, authenticate-flood}
use deployer.Auth.Address.{Request, client_address, trusted, request_host}
use deployer.Auth.Header.{bearer_token, bearer_token-append}

abbrev person : Account
person = record nobody { id = codes "acc_1"; email = codes "a@b.c"; verified = true }

abbrev a_token : Token
a_token = record { id = codes "tok_1"; account_id = codes "acc_1" }

abbrev known : Text → Resolved
known h = if text_eq h (codes "good") then resolved person a_token else unknown

abbrev verifier : Verifier
verifier = record { hash = λ raw. raw; resolve_token = known; resolve_session = known }

abbrev here : Text
here = codes "10.0.0.9"

abbrev fresh : Limiter ℕ
fresh = new_limiter

abbrev four_tries : List Try
four_tries =
    (codes "b", (11 * second, 11 * second))
    ∷ (codes "c", (12 * second, 12 * second))
    ∷ ([], (13 * second, 13 * second))
    ∷ (codes "d", (14 * second, 14 * second))
    ∷ []

authenticate-penalty_example :
    Judged sign_in_settings
      (codes "bad")
      here
      6
      (is_locked (some fresh) here 5)
      (known (codes "bad"))
      (some fresh)
      (authenticate sign_in_settings verifier (codes "bad") here 5 6 (some fresh)).error
      (authenticate sign_in_settings verifier (codes "bad") here 5 6 (some fresh)).lockout
authenticate-penalty_example =
    authenticate-penalty sign_in_settings verifier (codes "bad") here 5 6 (some fresh)

good_passes :
    (authenticate sign_in_settings verifier (codes "good") here 5 6 (some fresh)).account ≡ person
unfolding authenticate locked_out
good_passes = refl

fresh_free : is_locked (some fresh) here 5 ≡ false
unfolding locked_out
fresh_free = refl

authenticate-flood_example :
    authenticate sign_in_settings verifier (codes "good") here (40 * second) (41 * second) (
      lockout_after verifier here
        (some (succeeded here fresh))
        ((codes "a", (10 * second, 10 * second)) ∷ four_tries))
    ≡ refuse sign_in_settings verifier nobody too_many_attempts (
        lockout_after verifier here
          (some (succeeded here fresh))
          ((codes "a", (10 * second, 10 * second)) ∷ four_tries))
authenticate-flood_example =
    authenticate-flood verifier here (codes "a") (codes "good") (10 * second) (10 * second)
      (40 * second) (41 * second) four_tries fresh refl refl
      (omega arith, (omega arith, (omega arith, (omega arith, tt))))
      (refl, (refl, (refl, (refl, (refl, tt))))) (omega arith)

abbrev spoofed : Request
spoofed = record {
  host = codes "console.lan";
  remote_addr = codes "10.1.1.1:443";
  connecting_ip = codes "6.6.6.6" ∷ [];
  forwarded_for = [];
}

not_public : trusted (request_host (codes "console.lan")) (codes "console.example.org" ∷ []) ≡ false
unfolding trusted request_host
not_public = refl

-- The header counts on a public hostname, whatever its port.
public_host :
    client_address (record spoofed { host = codes "console.lan:8443" }) (codes "console.lan" ∷ [])
    ≡ codes "6.6.6.6"
unfolding client_address is_space
public_host = refl

clean : All (λ r. is_space r ≡ false) (codes "dpl_x1")
unfolding is_space
clean = (refl, (refl, (refl, (refl, (refl, (refl, tt))))))

bearer_token-append_example : bearer_token (codes "bEaRer " ++ codes "dpl_x1") ≡ codes "dpl_x1"
bearer_token-append_example = bearer_token-append (codes "bEaRer ") (codes "dpl_x1") refl refl clean
