-- ===== src/Config/Production.antt =====
-- What src/api/config.py guarantees of a service in production.
use extube.Prelude.{
  ℕ, ◌≡◌, String, Bool, true, false, List, [], ◌∷◌, map, keep, str_eq, refl, Bool-cases, inl, inr,
}
use extube.Prelude.Text.{strip, lacks-strip}
use extube.Prelude.Split.{split_on, lacks, some_has, some_has-split_on}
use extube.Config.{
  Settings, default_jwt_secret, cors_origin_list, refused, is_production, check_origins,
  validate_production_settings,
}

stripped :
    (k : ℕ) (p : String → Bool) (parts : List String)
    → some_has k parts ≡ false
    → some_has k (map strip (keep p parts)) ≡ false
stripped k p [] h = refl
stripped k p (s ∷ parts) h = elim (Bool-cases (lacks k s)) [
  | inl clear ↦
      let rest = stripped k p parts (rw clear at h) in
      elim (Bool-cases (p s)) [
        | inl kept ↦ rw kept (rw (lacks-strip k s clear) rest)
        | inr dropped ↦ rw dropped rest
      ]
  | inr star ↦ cc (rw star at h)
]

-- Where the check does not refuse the settings of a production environment, the key is not the
-- default, and no origin of the list that CORS is given has a `*`.
pub validate_production_settings-origins :
    (s : Settings)
    → is_production s ≡ true
    → ¬ validate_production_settings s ≡ refused
    → (str_eq s.jwt_secret_key default_jwt_secret ≡ false)
      × (some_has b'*' (cors_origin_list s) ≡ false)
unfolding validate_production_settings check_origins cors_origin_list
validate_production_settings-origins s production accepted =
    elim (Bool-cases (str_eq s.jwt_secret_key default_jwt_secret)) [
      | inl common ↦
          absurd (accepted (rw (common, validate_production_settings) (rw production refl)))
      | inr own ↦ elim (Bool-cases (lacks b'*' s.cors_origins)) [
        | inl clear ↦ (
          own,
          stripped b'*' _ (split_on b',' s.cors_origins)
              (some_has-split_on b'*' b',' s.cors_origins clear),
        )
        | inr star ↦
            absurd (accepted (rw (own, validate_production_settings) (rw (production, star) refl)))
      ]
    ]
