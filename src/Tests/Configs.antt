-- ===== src/Tests/Configs.antt =====
-- Configuration, at concrete inputs.
use deployer.Base.{codes, [], none, refl, some, true, ◌↔◌, ◌∷◌, ◌≡◌}
use deployer.Domain.Config.{
  ConfigWrite, Table, valid_config_key, validate_config, check_writes, merge, check_merged, put,
  total_bytes, valid_from,
}
use deployer.Domain.Config.Accept.{IsAcceptable, validate_config_iff}
use deployer.Domain.Reason.{config_key_invalid}

abbrev url_write : ConfigWrite
url_write = record { key = codes "DB_URL"; value = codes "file:x"; secret = some true }

abbrev old_table : Table
old_table = (codes "LANG", codes "C") ∷ (codes "DB_URL", codes "none") ∷ []

validate_config_iff_example :
    (validate_config (url_write ∷ []) old_table ≡ none) ↔ IsAcceptable (url_write ∷ []) old_table
validate_config_iff_example = validate_config_iff (url_write ∷ []) old_table

accepted : validate_config (url_write ∷ []) old_table ≡ none
unfolding validate_config check_writes check_merged merge put total_bytes valid_config_key
    valid_from
accepted = refl

twice : validate_config (url_write ∷ url_write ∷ []) old_table ≡ some config_key_invalid
unfolding validate_config check_writes check_merged merge put total_bytes valid_config_key
    valid_from
twice = refl
