-- ===== src/Prelude/Codes.antt =====
-- server/inc/error_codes.h: what the functions that can only succeed or fail return.
use mathlib.Core.Path.{◌≡◌, refl}
use mathlib.Core.Logic.{◌⊎◌, inl, inr}
use mathlib.Core.Bool.{Bool, true, false}

-- SUCCESS is 0 and ERROR is -1.
pub data Status : Type 0 where
  success error : Status

pub Status-cases : (s : Status) → (s ≡ success) ⊎ (s ≡ error)
Status-cases success = inl refl
Status-cases error = inr refl

abbrev pub is_error : Status → Bool
is_error success = false
is_error error = true
