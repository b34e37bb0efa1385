-- ===== src/Base/Answer.antt =====
-- Go's pair of a value and an error: the text of the error is what the code looks at.
use Prim.Native.String.{String}

pub data Result {ℓ} (A : Type ℓ) : Type ℓ where
  ok : A → Result A
  err : String → Result A
