-- ===== src/Auth/Header.antt =====
-- internal/auth/authenticate.go, BearerToken. A header is read as its runes: the first seven bytes
-- can fold to the seven letters of the prefix only if they are ASCII.
use deployer.Base.{
  Text, ℕ, Bool, [], ◌∷◌, take, length, ltb, leb, codes, text_eq, map, not, ◌||◌, ◌&&◌, ◌+◌,
  if◌then◌else◌, suc, zero, All, ap, arith, false, length-append, refl, sym, true, ◌++◌, ◌∙◌, ◌≡◌,
}
use deployer.Domain.Image.{trim_space, is_space, trim_space-clean}

-- strings.EqualFold against a text of ASCII letters with no K and no S.
abbrev pub lower : ℕ → ℕ
lower r = if leb b'A' r && leb r b'Z' then r + 32 else r

abbrev pub equal_fold : Text → Text → Bool
equal_fold s t = text_eq (map lower s) (map lower t)

abbrev pub drop : ℕ → Text → Text
drop zero s = s
drop (suc n) [] = []
drop (suc n) (r ∷ rs) = drop n rs

abbrev pub prefix : Text
prefix = codes "Bearer "

unfoldable pub bearer_token : Text → Text
unfolding trim_space
bearer_token header =
    if ltb (length header) (length prefix) || not (equal_fold (take (length prefix) header) prefix)
    then []
    else trim_space (drop (length prefix) header)

take-append : (s t : Text) → take (length s) (s ++ t) ≡ s
take-append [] t = refl
take-append (r ∷ s) t = rw (take-append s t) refl

drop-append : (s t : Text) → drop (length s) (s ++ t) ≡ t
drop-append [] t = refl
drop-append (r ∷ s) t = drop-append s t

-- A credential without white space comes back from the header that carries it, in whatever case the
-- seven runes of the scheme are written.
pub bearer_token-append :
    (scheme raw : Text)
    → length scheme ≡ length prefix
    → equal_fold scheme prefix ≡ true
    → All (λ r. is_space r ≡ false) raw
    → bearer_token (scheme ++ raw) ≡ raw
unfolding bearer_token
bearer_token-append scheme raw n e clean =
    let enough : ltb (length (scheme ++ raw)) (length prefix) ≡ false =
      ground (arith, length-append scheme raw, n) in
    let taken : take (length prefix) (scheme ++ raw) ≡ scheme =
      ap (λ k. take k (scheme ++ raw)) (sym n) ∙ take-append scheme raw in
    let dropped : drop (length prefix) (scheme ++ raw) ≡ raw =
      ap (λ k. drop k (scheme ++ raw)) (sym n) ∙ drop-append scheme raw in
    rw (enough, taken, e, dropped) (trim_space-clean raw clean)
