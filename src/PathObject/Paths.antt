-- ===== src/PathObject/Paths.antt =====
-- helpers/extract-arrays.ts and helpers/generate-transaction-details.ts: the paths of the generated API.
use Prim.Native.String
use Prim.Native.String.append
use Prim.Native.Char.{code}
use tezos_api_gateway.Base.{
  String, ◌≡◌, ◌∙◌, refl, ap, subst, Bool, true, false, not, ◌&&◌, ◌||◌, none, List, [], ◌∷◌, map,
  arith, inl, inr, Bool-cases, ◌==◌, if◌then◌else◌,
}
use tezos_api_gateway.Base.Lists.{keep, All}
use tezos_api_gateway.Value.{Value, Fields, end, field, keys}
use tezos_api_gateway.Exceptions.{ok, Result-cases}
use tezos_api_gateway.Forge.Node.{TransactionDetails}
use tezos_api_gateway.PathObject.{
  forge, send, generate_path_object, generate_path_item_schema, forge_path, send_path,
  async_send_path,
}

-- `s.startsWith(sub)`
unfoldable pub starts_with : String → String → Bool
starts_with s String.[] = true
starts_with String.[] (String.◌∷◌ d t) = false
starts_with (String.◌∷◌ c s) (String.◌∷◌ d t) = code c == code d && starts_with s t

-- `s.includes(sub)`
unfoldable pub includes : String → String → Bool
unfolding starts_with
includes String.[] sub = starts_with "" sub
includes (String.◌∷◌ c s) sub = starts_with (String.◌∷◌ c s) sub || includes s sub

abbrev pub is_forge_path : String → Bool
is_forge_path path = includes path "/forge/"

abbrev pub is_send_path : String → Bool
is_send_path path = includes path "/send/" && not (includes path "async")

abbrev pub is_async_send_path : String → Bool
is_async_send_path path = includes path "/send/" && includes path "async"

pub record ExtractedPaths : Type 0 where
  pub forge_paths : List String
  pub send_paths : List String
  pub async_send_paths : List String

-- `extractForgeAndSendTransactionsPaths`
unfoldable pub extract_paths : List String → ExtractedPaths
unfolding includes
extract_paths paths = record {
  forge_paths = keep is_forge_path paths;
  send_paths = keep is_send_path paths;
  async_send_paths = keep is_async_send_path paths;
}

-- `path.split('/').pop()`: what follows the last slash of `rest`, or `current` if it has none.
unfoldable pub last_segment : String → String → String
last_segment current String.[] = current
last_segment current (String.◌∷◌ c rest) =
    let cut = last_segment rest rest in
    let kept = last_segment current rest in if code c == 47 then cut else kept

-- `text.split('?')[0]`
unfoldable pub before_query : String → String
before_query String.[] = String.[]
before_query (String.◌∷◌ c s) =
    let more = before_query s in if code c == 63 then String.[] else String.◌∷◌ c more

unfoldable pub entry_point_of : String → String
unfolding last_segment before_query
entry_point_of path = before_query (last_segment path path)

-- `generateTransactionDetails` for the contract of the configuration.
unfoldable pub generate_transaction_details : String → String → Value → TransactionDetails
unfolding entry_point_of
generate_transaction_details contract_address path parameters = record {
  contract_address = contract_address;
  entry_point = entry_point_of path;
  entry_point_params = parameters;
  amount = none;
  fee = none;
}

-- A name without a slash and a question mark, as the annotations of Michelson are.
unfoldable pub is_plain : String → Bool
is_plain String.[] = true
is_plain (String.◌∷◌ c s) = not (code c == 47) && (not (code c == 63) && is_plain s)

last_segment-plain : (current s : String) → is_plain s ≡ true → last_segment current s ≡ current
unfolding last_segment is_plain
last_segment-plain current String.[] h = refl
last_segment-plain current (String.◌∷◌ c s) h = ground (arith, last_segment-plain current s)

before_query-plain : (s : String) → is_plain s ≡ true → before_query s ≡ s
unfolding before_query is_plain
before_query-plain String.[] h = refl
before_query-plain (String.◌∷◌ c s) h = ground (arith, before_query-plain s)

-- Whether a text ends in a slash, if it is not empty.
abbrev ends : Bool → String → Bool
ends slash String.[] = slash
ends slash (String.◌∷◌ c s) = ends (code c == 47) s

last_segment-append :
    (slash : Bool) (p name current : String)
    → ends slash p ≡ true
    → is_plain name ≡ true
    → (slash ≡ true → current ≡ String.◌++◌ p name)
    → last_segment current (String.◌++◌ p name) ≡ name
unfolding last_segment
last_segment-append slash String.[] name current e plain h =
    ap (last_segment current) (append.nil name)
    ∙ (last_segment-plain current name plain ∙ (h e ∙ append.nil name))
last_segment-append slash (String.◌∷◌ c p) name current e plain h =
    let rest = String.◌++◌ p name in
    let cut = last_segment-append true p name rest in
    let kept = last_segment-append false p name current in
    ap (last_segment current) (append.cons c p name) ∙ elim (Bool-cases (code c == 47)) [
      | inl hit ↦
          let ending : ends true p ≡ true = subst (λ b. ends b p ≡ true) hit e in
          let step : last_segment current (String.◌∷◌ c rest) ≡ last_segment rest rest =
            ground arith in
          step ∙ cut ending plain (λ _. refl)
      | inr miss ↦
          let ending : ends false p ≡ true = subst (λ b. ends b p ≡ true) miss e in
          let step : last_segment current (String.◌∷◌ c rest) ≡ last_segment current rest =
            ground arith in
          step ∙ kept ending plain (λ no. cc)
    ]

entry_point_of-append :
    (p name : String)
    → ends false p ≡ true
    → is_plain name ≡ true
    → entry_point_of (String.◌++◌ p name) ≡ name
unfolding entry_point_of
entry_point_of-append p name ending plain =
    let path = String.◌++◌ p name in
    ap before_query (last_segment-append false p name path ending plain (λ no. refl))
    ∙ before_query-plain name plain

-- The three paths of an entry point, in the order of the description.
abbrev pub paths_of : List String → List String
paths_of [] = []
paths_of (key ∷ more) = forge_path key ∷ send_path key ∷ async_send_path key ∷ paths_of more

abbrev pub thrice : List String → List String
thrice [] = []
thrice (key ∷ more) = key ∷ key ∷ key ∷ thrice more

entry_points :
    (ks : List String)
    → All (λ k. is_plain k ≡ true) ks
    → map entry_point_of (paths_of ks) ≡ thrice ks
entry_points [] h = refl
entry_points (k ∷ ks) (plain, hs) = ground (
  arith,
  entry_points ks hs,
  entry_point_of-append "/forge/" k refl plain,
  entry_point_of-append "/send/" k refl plain,
  entry_point_of-append "/async/send/" k refl plain,
)

abbrev pub path_of : String × Value → String
path_of (path, item) = path

paths_generated :
    (responses : Value) (fs : Fields) (items : List (String × Value))
    → generate_path_object responses fs ≡ ok items
    → map path_of items ≡ paths_of (keys fs)
unfolding generate_path_object
paths_generated responses end items e = ground arith
paths_generated responses (field key schema rest) items e =
    elim (Result-cases (generate_path_item_schema responses schema forge)) [
      | inr (x, failed) ↦ ground arith
      | inl (forging, f) ↦ elim (Result-cases (generate_path_item_schema responses schema send)) [
        | inr (x, failed) ↦ ground arith
        | inl (sending, s) ↦ elim (Result-cases (generate_path_object responses rest)) [
          | inr (x, failed) ↦ ground arith
          | inl (more, m) ↦ ground (arith, paths_generated responses rest more m)
        ]
      ]
    ]

-- The generated API has three paths for each entry point of the contract, in the order of its
-- schema, and the middleware that turns a request on any of them into a transaction reads that entry
-- point back from the path. The names hold no slash and no question mark, as the annotations of
-- Michelson.
pub generate_transaction_details-generate_path_object :
    (contract_address : String) (responses parameters : Value) (fs : Fields)
    (items : List (String × Value))
    → All (λ k. is_plain k ≡ true) (keys fs)
    → generate_path_object responses fs ≡ ok items
    → map
        (λ item.
          (generate_transaction_details contract_address (path_of item) parameters).entry_point)
        items
      ≡ thrice (keys fs)
unfolding generate_transaction_details
generate_transaction_details-generate_path_object address responses parameters fs items plain e =
    map_path_of items
    ∙ (ap (map entry_point_of) (paths_generated responses fs items e)
        ∙ entry_points (keys fs) plain)
  where
    map_path_of :
        (list : List (String × Value))
        → map (λ item. entry_point_of (path_of item)) list ≡ map entry_point_of (map path_of list)
    map_path_of [] = refl
    map_path_of (item ∷ list) = ap (λ r. entry_point_of (path_of item) ∷ r) (map_path_of list)
