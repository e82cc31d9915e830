-- ===== src/Config/Tests.antt =====
-- Settings of a production environment.
use extube.Prelude.{false, ◌≡◌, [], ◌∷◌, refl, str_eq}
use extube.Prelude.Text.{strip}
use extube.Prelude.Split.{split_on, some_has}
use extube.Config.{
  Settings, default_settings, default_jwt_secret, cors_origin_list, refused, warned,
  validate_production_settings,
}
use extube.Config.Production.{validate_production_settings-origins}

abbrev production : Settings
production = record default_settings {
  environment = "production";
  jwt_secret_key = "a key of its own";
  cors_origins = "https://a.example, https://b.example,";
}

validate_production_settings-origins_example :
    (str_eq production.jwt_secret_key default_jwt_secret ≡ false)
    × (some_has b'*' (cors_origin_list production) ≡ false)
unfolding validate_production_settings
validate_production_settings-origins_example =
    validate_production_settings-origins production refl (λ h. cc)

lists_origins : cors_origin_list production ≡ "https://a.example" ∷ "https://b.example" ∷ []
unfolding cors_origin_list split_on strip
lists_origins = refl

warns : validate_production_settings default_settings ≡ warned
unfolding validate_production_settings
warns = refl

refuses :
    validate_production_settings (record production { cors_origins = "https://a.example,*" })
    ≡ refused
unfolding validate_production_settings
refuses = refl
