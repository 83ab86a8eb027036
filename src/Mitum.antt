-- ===== src/Mitum.antt =====
-- What the program takes from the mitum framework (github.com/spikeekips/mitum): public keys and
-- their comparison (base/key), hashes (util/valuehash), hinted strings (util/hint). No law is
-- assumed here; a theorem that needs one names it as a hypothesis.
use mitum_currency.Prelude.{ℕ, Bool}
use mitum_currency.Prelude.Bytes.{Bytes}
use mitum_currency.Big.Float.{Float64}

pub record Mitum : Type 1 where
  pub Publickey : Type 0
  pub publickey_equal : Publickey → Publickey → Bool
  pub publickey_is_valid : Publickey → Bool
  pub publickey_bytes : Publickey → Bytes
  pub publickey_string : Publickey → Bytes
  pub Hash : Type 0
  pub hash_is_valid : Hash → Bool
  pub hash_equal : Hash → Hash → Bool
  pub hash_string : Hash → Bytes
  -- `valuehash.NewSHA256`
  pub sha256 : Bytes → Hash
  -- `util.UintToBytes`
  pub uint_to_bytes : ℕ → Bytes
  -- `hint.HintedString` with the hint of an address
  pub hinted_address : Bytes → Bytes
  -- `encoding/binary` on a float64: eight bytes
  pub float_bytes : Float64 → Bytes
