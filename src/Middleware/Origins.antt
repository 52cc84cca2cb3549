-- ===== src/Middleware/Origins.antt =====
-- Which origins the middleware lets read a response.
use aegis_pulse.Base.{◌≡◌, false, List, [], ◌∷◌, Text, codes, text_eq}
use aegis_pulse.Middleware.Defs.{equal_fold}

-- No allowed origin is the wildcard or the given one.
abbrev pub IsForeign : Text → List Text → Type 0
IsForeign origin [] = Unit
IsForeign origin (o ∷ os) =
    (text_eq o (codes "*") ≡ false) × (equal_fold o origin ≡ false) × IsForeign origin os
