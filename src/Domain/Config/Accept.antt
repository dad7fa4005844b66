-- ===== src/Domain/Config/Accept.antt =====
-- Which calls `ValidateConfig` lets through.
use deployer.Domain.Config.Keys.{IsConfigKey, valid_config_key_iff}
use deployer.Base.{
  All, List, Text, [], any, arith, false, is_some, length, none, refl, text_eq, text_eq_sound,
  text_eq_refl, true, ◌↔◌, ◌∷◌, ◌≡◌, ◌≢◌, ◌≤◌,
}
use deployer.Domain.Config.{
  ConfigWrite, check_writes, validate_config, reserved_key_port, Table, valid_config_key,
  reserved_key_app_url, merge, max_config_value_bytes, max_config_keys, total_bytes,
  max_config_total_bytes,
}

-- A write that is acceptable on its own.
pub record IsFine (w : ConfigWrite) : Type 0 where
  pub key_shape : IsConfigKey w.key
  pub not_port : w.key ≢ reserved_key_port
  pub not_app_url : w.key ≢ reserved_key_app_url
  pub flagged : is_some w.secret ≡ true
  pub small : length w.value ≤ max_config_value_bytes

abbrev pub NotIn : List Text → ConfigWrite → Type 0
NotIn seen w = All (λ k. k ≢ w.key) seen

abbrev pub DistinctKeys : List ConfigWrite → Type 0
DistinctKeys [] = Unit
DistinctKeys (w ∷ ws) = All (λ (v : ConfigWrite). w.key ≢ v.key) ws × DistinctKeys ws

-- The whole call, judged without the order in which the code looks at it.
pub record IsAcceptable (ws : List ConfigWrite) (existing : Table) : Type 0 where
  pub some_write : ws ≢ []
  pub each_fine : All IsFine ws
  pub distinct : DistinctKeys ws
  pub few_keys : length (merge existing ws) ≤ max_config_keys
  pub fits : total_bytes (merge existing ws) ≤ max_config_total_bytes

NotIn-sound :
    (seen : List Text) (w : ConfigWrite) → any (λ k. text_eq k w.key) seen ≡ false → NotIn seen w
NotIn-sound [] w h = tt
NotIn-sound (k ∷ ks) w h = (λ e. ground (arith, e, text_eq_refl k), NotIn-sound ks w (ground arith))

NotIn-complete :
    (seen : List Text) (w : ConfigWrite) → NotIn seen w → any (λ k. text_eq k w.key) seen ≡ false
NotIn-complete [] w h = refl
NotIn-complete (k ∷ ks) w h = ground (arith, text_eq_sound k w.key, NotIn-complete ks w h.1, h.0)

-- What one round of the loop has found of its write.
record Passes (seen : List Text) (w : ConfigWrite) (ws : List ConfigWrite) : Type 0 where
  shape : valid_config_key w.key ≡ true
  port : text_eq w.key reserved_key_port ≡ false
  app_url : text_eq w.key reserved_key_app_url ≡ false
  flag : is_some w.secret ≡ true
  unseen : any (λ k. text_eq k w.key) seen ≡ false
  value_size : length w.value ≤ max_config_value_bytes
  rest : check_writes (w.key ∷ seen) ws ≡ none

check-Passes :
    (seen : List Text) (w : ConfigWrite) (ws : List ConfigWrite)
    → check_writes seen (w ∷ ws) ≡ none
    → Passes seen w ws
unfolding check_writes
check-Passes seen w ws h = ground arith

Passes-check :
    (seen : List Text) (w : ConfigWrite) (ws : List ConfigWrite)
    → Passes seen w ws
    → check_writes seen (w ∷ ws) ≡ none
unfolding check_writes
Passes-check seen w ws p = ground arith

text-ne : (s t : Text) → text_eq s t ≡ false → s ≢ t
text-ne s t h = λ e. ground (arith, e, text_eq_refl s)

text-ne-eq_false : (s t : Text) → s ≢ t → text_eq s t ≡ false
text-ne-eq_false s t h = ground (arith, text_eq_sound s t)

Passes-IsFine :
    (seen : List Text) (w : ConfigWrite) (ws : List ConfigWrite) → Passes seen w ws → IsFine w
Passes-IsFine seen w ws p = record {
  key_shape = (valid_config_key_iff w.key).0 p.shape;
  not_port = text-ne _ _ p.port;
  not_app_url = text-ne _ _ p.app_url;
  flagged = p.flag;
  small = p.value_size;
}

-- What it takes to pass the loop, with the keys that it has seen.
record Clears (seen : List Text) (ws : List ConfigWrite) : Type 0 where
  fine : All IsFine ws
  unseen : All (NotIn seen) ws
  distinct : DistinctKeys ws

unseen-split :
    (k : Text) (seen : List Text) (ws : List ConfigWrite)
    → All (NotIn (k ∷ seen)) ws
    → All (λ (v : ConfigWrite). k ≢ v.key) ws × All (NotIn seen) ws
unseen-split k seen [] h = (tt, tt)
unseen-split k seen (w ∷ ws) h = let (a, b) = unseen-split k seen ws h.1 in ((h.0.0, a), (h.0.1, b))

unseen-join :
    (k : Text) (seen : List Text) (ws : List ConfigWrite)
    → All (λ (v : ConfigWrite). k ≢ v.key) ws
    → All (NotIn seen) ws
    → All (NotIn (k ∷ seen)) ws
unseen-join k seen [] a b = tt
unseen-join k seen (w ∷ ws) a b = ((a.0, b.0), unseen-join k seen ws a.1 b.1)

check_sound :
    (seen : List Text) (ws : List ConfigWrite) → check_writes seen ws ≡ none → Clears seen ws
check_sound seen [] h = record { fine = tt; unseen = tt; distinct = tt }
check_sound seen (w ∷ ws) h =
    let p : Passes seen w ws = check-Passes seen w ws h in
    let r : Clears (w.key ∷ seen) ws = check_sound (w.key ∷ seen) ws p.rest in
    let (later, earlier) = unseen-split w.key seen ws r.unseen in
    record {
      fine = (Passes-IsFine seen w ws p, r.fine);
      unseen = (NotIn-sound seen w p.unseen, earlier);
      distinct = (later, r.distinct);
    }

check_complete :
    (seen : List Text) (ws : List ConfigWrite) → Clears seen ws → check_writes seen ws ≡ none
unfolding check_writes
check_complete seen [] c = refl
check_complete seen (w ∷ ws) c = Passes-check seen w ws (record {
  shape = (valid_config_key_iff w.key).1 c.fine.0.key_shape;
  port = text-ne-eq_false _ _ c.fine.0.not_port;
  app_url = text-ne-eq_false _ _ c.fine.0.not_app_url;
  flag = c.fine.0.flagged;
  unseen = NotIn-complete seen w c.unseen.0;
  value_size = c.fine.0.small;
  rest = check_complete (w.key ∷ seen) ws (record {
    fine = c.fine.1;
    unseen = unseen-join w.key seen ws c.distinct.0 c.unseen.1;
    distinct = c.distinct.1;
  });
})

All-unseen : (ws : List ConfigWrite) → All (NotIn []) ws
All-unseen [] = tt
All-unseen (w ∷ ws) = (tt, All-unseen ws)

merged-cases :
    (w : ConfigWrite) (ws : List ConfigWrite) (existing : Table)
    → validate_config (w ∷ ws) existing ≡ none
    → (check_writes [] (w ∷ ws) ≡ none)
      × (length (merge existing (w ∷ ws)) ≤ max_config_keys)
      × (total_bytes (merge existing (w ∷ ws)) ≤ max_config_total_bytes)
unfolding validate_config
merged-cases w ws existing h = ground arith

accepted-checks :
    (w : ConfigWrite) (ws : List ConfigWrite) (existing : Table)
    → IsAcceptable (w ∷ ws) existing
    → check_writes [] (w ∷ ws) ≡ none
accepted-checks w ws existing a =
    check_complete [] (w ∷ ws)
      (record { fine = a.each_fine; unseen = All-unseen (w ∷ ws); distinct = a.distinct })

merged-accepts :
    (w : ConfigWrite) (ws : List ConfigWrite) (existing : Table)
    → check_writes [] (w ∷ ws) ≡ none
    → length (merge existing (w ∷ ws)) ≤ max_config_keys
    → total_bytes (merge existing (w ∷ ws)) ≤ max_config_total_bytes
    → validate_config (w ∷ ws) existing ≡ none
unfolding validate_config
merged-accepts w ws existing each few total = ground arith

-- `ValidateConfig` refuses nothing exactly when the call is acceptable: at least one write, every
-- key well formed, not reserved, flagged and named once, every value and the merged whole in bounds.
pub validate_config_iff :
    (ws : List ConfigWrite) (existing : Table)
    → (validate_config ws existing ≡ none) ↔ IsAcceptable ws existing
unfolding validate_config
validate_config_iff [] existing = (λ h. cc, λ a. absurd (a.some_write refl))
validate_config_iff (w ∷ ws) existing = (
  λ h.
      let (each, few, total) = merged-cases w ws existing h in
      let c : Clears [] (w ∷ ws) = check_sound [] (w ∷ ws) each in
      record {
        some_write = λ e. cc;
        each_fine = c.fine;
        distinct = c.distinct;
        few_keys = few;
        fits = total;
      },
  λ a. merged-accepts w ws existing (accepted-checks w ws existing a) a.few_keys a.fits,
)
