-- ===== src/Bootstrap/Rotation.antt =====
-- What a rotation of the bootstrap token leaves.
use deployer.Base.{
  text_eq_refl, is_nil, Text, List, some, [], ◌∷◌, any, if◌then◌else◌, ◌||◌, ◌≡◌, ℕ, refl, arith,
  Bool, Bool-cases, false, inl, inr, none, true, ◌+◌, ap, ◌∙◌,
}
use deployer.Store.Table.{update_by}
use deployer.Bootstrap.{
  token_prefix_of, token_row, create_api_token, bootstrap_name, revoke_tokens_named, seed, done,
  failed, bootstrap, resolve_token, get_account_by_name, Account, Db, Outcome, ApiToken, has_hash,
  live_named,
}

-- The live tokens of the account under the name.
abbrev pub live_ones : ℕ → Text → List ApiToken → List ApiToken
live_ones account name [] = []
live_ones account name (t ∷ l) =
    let rest = live_ones account name l in if live_named account name t then t ∷ rest else rest

abbrev pub revoked : ℕ → ApiToken → ApiToken
revoked now t = record t { revoked_at = some now }

none_live :
    (now account : ℕ) (name : Text) (l : List ApiToken)
    → live_ones account name (update_by (live_named account name) (revoked now) l) ≡ []
unfolding update_by
none_live now account name [] = refl
none_live now account name (t ∷ l) = ground (arith, none_live now account name l)

-- After the revocation only the hash can stand in the way.
only_hash :
    (now account : ℕ) (name h : Text) (l : List ApiToken)
    → any
        (λ (t : ApiToken). has_hash h t || live_named account name t)
        (update_by (live_named account name) (revoked now) l)
      ≡ any (has_hash h) l
unfolding update_by
only_hash now account name h [] = refl
only_hash now account name h (t ∷ l) = ground (arith, only_hash now account name h l)

-- Some token, live or not, has the hash.
abbrev pub used : Text → Db → Bool
used h db = any (has_hash h) db.tokens

abbrev pub fresh_row : ℕ → Text → Text → Account → Db → ApiToken
fresh_row now raw h account db =
    token_row db.next_id now account.id bootstrap_name h (token_prefix_of raw)

-- The seeding of a token that does not resolve.
abbrev pub seeded : ℕ → Text → Text → Account → Db → Outcome × Db
seeded now raw h account db = seed now raw h account db none

seeded_used :
    (now : ℕ) (raw h : Text) (account : Account) (db : Db)
    → used h db ≡ true
    → seeded now raw h account db ≡ (failed, revoke_tokens_named now account.id bootstrap_name db)
unfolding create_api_token revoke_tokens_named
seeded_used now raw h account db taken =
    rw (only_hash now account.id bootstrap_name h db.tokens, taken) refl

seeded_fresh :
    (now : ℕ) (raw h : Text) (account : Account) (db : Db)
    → used h db ≡ false
    → seeded now raw h account db ≡ (
      done,
      record (revoke_tokens_named now account.id bootstrap_name db) {
        tokens =
            fresh_row now raw h account db
            ∷ (revoke_tokens_named now account.id bootstrap_name db).tokens;
        next_id = db.next_id + 1;
      },
    )
unfolding create_api_token revoke_tokens_named
seeded_fresh now raw h account db free =
    rw (only_hash now account.id bootstrap_name h db.tokens, free) refl

live_fresh :
    (id now account : ℕ) (name h head : Text) (l : List ApiToken)
    → live_ones account name (token_row id now account name h head ∷ l)
      ≡ token_row id now account name h head ∷ live_ones account name l
live_fresh id now account name h head l =
    let mine : live_named account name (token_row id now account name h head) ≡ true =
      ground (arith, text_eq_refl name) in
    rw mine refl

begins :
    (hash : Text → Text) (now : ℕ) (raw : Text) (db : Db) (a : Account)
    → is_nil raw ≡ false
    → get_account_by_name bootstrap_name db ≡ some a
    → resolve_token now (hash raw) db ≡ none
    → bootstrap hash now raw db ≡ seeded now raw (hash raw) a db
unfolding bootstrap
begins hash now raw db a given there unknown = rw (given, there, unknown) refl

-- What a rotation answers, and the live tokens that it leaves under the name.
abbrev pub Rotated : Bool → Account → ApiToken → Outcome × Db → Type 0
Rotated true a t (x, db) = (x ≡ failed) × (live_ones a.id bootstrap_name db.tokens ≡ [])
Rotated false a t (x, db) = (x ≡ done) × (live_ones a.id bootstrap_name db.tokens ≡ t ∷ [])

cleared :
    (now : ℕ) (a : Account) (db : Db)
    → live_ones a.id bootstrap_name (revoke_tokens_named now a.id bootstrap_name db).tokens ≡ []
unfolding revoke_tokens_named
cleared now a db = none_live now a.id bootstrap_name db.tokens

seeded-Rotated :
    (now : ℕ) (raw h : Text) (db : Db) (a : Account)
    → Rotated (used h db) a (fresh_row now raw h a db) (seeded now raw h a db)
seeded-Rotated now raw h db a = elim (Bool-cases (used h db)) [
  | inl taken ↦ rw (seeded_used now raw h a db taken, taken) (refl, cleared now a db)
  | inr free ↦
      rw (seeded_fresh now raw h a db free, free)
        (
          refl,
          live_fresh db.next_id now a.id bootstrap_name h (token_prefix_of raw)
                (revoke_tokens_named now a.id bootstrap_name db).tokens
              ∙ ap (λ l. fresh_row now raw h a db ∷ l) (cleared now a db),
        )
]

-- Where the bootstrap account exists and the configured token does not resolve: if no token ever had its
-- hash, the seeding succeeds and leaves exactly one live token under the name, the new one; if one did,
-- such as a token that was rotated out before, the seeding fails and leaves no live token under the name.
pub bootstrap-Rotated :
    (hash : Text → Text) (now : ℕ) (raw : Text) (db : Db) (a : Account)
    → is_nil raw ≡ false
    → get_account_by_name bootstrap_name db ≡ some a
    → resolve_token now (hash raw) db ≡ none
    → Rotated (used (hash raw) db) a (fresh_row now raw (hash raw) a db) (bootstrap hash now raw db)
bootstrap-Rotated hash now raw db a given there unknown =
    rw (begins hash now raw db a given there unknown) (seeded-Rotated now raw (hash raw) db a)
