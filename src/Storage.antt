-- ===== src/Storage.antt =====
-- lib/storage/: the storage of a contract as a response, whole or by its fields.
pub mod Response
pub mod Attempts
pub mod Requested
pub mod Whole
pub mod Contract
use tezos_api_gateway.Base.{
  ℕ, suc, String, Bool, true, false, Option, none, some, List, [], ◌∷◌, str_eq, if◌then◌else◌,
}
use tezos_api_gateway.Value.{Value, Fields, end, field}

-- `_.fromPairs`: a later pair with the same key gives the value, at the place of the first.
unfoldable pub put : String → Value → Fields → Fields
put k v end = field k v end
put k v (field j u fs) = if str_eq j k then field j v fs else field j u (put k v fs)

unfoldable pub put_all : List (String × Value) → Fields → Fields
unfolding put
put_all [] fs = fs
put_all ((k, v) ∷ pairs) fs = put_all pairs (put k v fs)

unfoldable pub from_pairs : List (String × Value) → Fields
unfolding put_all
from_pairs pairs = put_all pairs end
