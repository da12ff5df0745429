-- ===== src/SmartContracts/Token.antt =====
-- The tokens of Taquito's michelson-encoder, as lib/smart-contracts/index.ts looks at them: the class
-- that `instanceof` tests, `annot()`, the text of `ExtractSchema()`, and the tokens that
-- `createToken(arg, 0)` makes of `val.args`.
use tezos_api_gateway.Base.{String, Bool, true, false, Option, none, some, str_eq, if◌then◌else◌}

pub data Kind : Type 0 where
  option bool map list set or pair other : Kind

mutual
  pub data Token : Type 0 where
    token : (kind : Kind) (annot schema : String) (args : Tokens) → Token

  pub data Tokens : Type 0 where
    nil : Tokens
    cons : Token → Tokens → Tokens

abbrev pub kind_of : Token → Kind
kind_of (token kind _ _ _) = kind

abbrev pub annot_of : Token → String
annot_of (token _ annot _ _) = annot

-- `token instanceof or.OrToken`, `token instanceof pair.PairToken`
abbrev pub is_or : Kind → Bool
is_or or = true
is_or _ = false

abbrev pub is_pair : Kind → Bool
is_pair pair = true
is_pair _ = false

-- `findChildTokenByAnnotation` on the arguments of a token: the first child with this annotation,
-- looked for below each earlier child of the wanted class too.
module _ (name : String) (wanted : Kind → Bool) where
  unfoldable pub find_child : Tokens → Option Token
  find_child nil = none
  find_child (cons (token kind annot schema args) rest) =
      let below = find_child args in
      let after = find_child rest in
      if str_eq annot name
      then some (token kind annot schema args)
      else if wanted kind
      then elim below [ some found ↦ some found | none ↦ after ]
      else after
