-- ===== src/Examples/Origins.antt =====
-- The middleware's theorem at a configuration with one origin.
use aegis_pulse.Base.{[], ◌∷◌, codes}
use aegis_pulse.Middleware.{CorsConfig, default_cors_config}

abbrev strict : CorsConfig
strict = record default_cors_config { allowed_origins = codes "https://a.io" ∷ [] }
