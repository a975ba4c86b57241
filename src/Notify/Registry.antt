-- ===== src/Notify/Registry.antt =====
-- notification_system/app/channels/registry.py: the registry of channels, a breaker for each name.
use sd_practice_qr_code_gene.Base.{ℕ, true, false, Option, none, some, List, [], ◌∷◌}
use sd_practice_qr_code_gene.Base.Dict
use sd_practice_qr_code_gene.Base.Dict.{Dict}
use sd_practice_qr_code_gene.Base.Text.{Text, codes, lower, is_in}
use sd_practice_qr_code_gene.Breaker
use sd_practice_qr_code_gene.Breaker.{CircuitBreaker}

-- CB_FAILURE_THRESHOLD, CB_RECOVERY_SECONDS, MAX_RETRIES, RETRY_BASE_DELAY_S
pub record Config : Type 0 where
  pub failure_threshold : ℕ
  pub recovery_seconds : ℕ
  pub max_retries : ℕ
  pub retry_base_delay : ℕ

abbrev pub valid_channels : List Text
valid_channels = codes "email" ∷ codes "sms" ∷ codes "push" ∷ []

-- `_BREAKERS.setdefault(name, CircuitBreaker(...))`
unfoldable pub breaker_of : Config → Dict CircuitBreaker → Text → CircuitBreaker
breaker_of cfg breakers name = elim (Dict.get breakers name) [
  | some b ↦ b
  | none ↦ Breaker.init cfg.failure_threshold cfg.recovery_seconds
]

-- `none` is the `ValueError` of an unknown channel; otherwise the breakers, with one for the name.
unfoldable pub get_channel : Config → Dict CircuitBreaker → Text → Option (Dict CircuitBreaker)
get_channel cfg breakers name = elim (is_in (lower name) valid_channels) [
  | false ↦ none
  | true ↦ some (Dict.put breakers name (breaker_of cfg breakers name))
]
