-- ===== src/Json.antt =====
-- The values of the crate `serde_json`, as the proxy reads them: crates/router-proxy/src/sse.rs and
-- inbound.rs. An object is the list of its members; reading and writing texts is an interface.
use Prim.Native.String.{[] as empty_text, ◌∷◌ as cons_text}
use Prim.Native.Char.{code}
use keel_llm_router.Base.{ℕ, Bool, Option, none, some, List, [], ◌∷◌, String, ◌=s=◌, if◌then◌else◌}

pub data Number (D : Type 0) : Type 0 where
  pos_int : ℕ → Number D
  neg_int : ℕ → Number D
  float : D → Number D

mutual
  pub data Value (D : Type 0) : Type 0 where
    null : Value D
    bool : Bool → Value D
    number : Number D → Value D
    text : String → Value D
    array : Values D → Value D
    object : Members D → Value D

  pub data Values (D : Type 0) : Type 0 where
    no_values : Values D
    a_value : Value D → Values D → Values D

  pub data Members (D : Type 0) : Type 0 where
    no_members : Members D
    a_member : String → Value D → Members D → Members D

-- `serde_json::from_str` and `to_vec`, on texts of type `B`.
pub record Json (D B : Type 0) : Type 0 where
  pub from_text : B → Option (Value D)
  pub to_text : Value D → Option B

module _ {D : Type 0} where
  -- `Map::get`
  abbrev pub get_member : Members D → String → Option (Value D)
  get_member no_members key = none
  get_member (a_member k v ms) key = if k =s= key then some v else get_member ms key

  -- `Map::insert`
  abbrev pub insert_member : Members D → String → Value D → Members D
  insert_member no_members key v = a_member key v no_members
  insert_member (a_member k u ms) key v =
      if k =s= key then a_member k v ms else a_member k u (insert_member ms key v)

  -- `Value::get` of a key
  abbrev pub get : Value D → String → Option (Value D)
  get (object ms) key = get_member ms key
  get null key = none
  get (bool b) key = none
  get (number n) key = none
  get (text s) key = none
  get (array vs) key = none

  abbrev pub as_str : Value D → Option String
  as_str v = elim v [ text s ↦ some s | _ ↦ none ]

  abbrev pub as_bool : Value D → Option Bool
  as_bool v = elim v [ bool b ↦ some b | _ ↦ none ]

  abbrev pub as_array : Value D → Option (Values D)
  as_array v = elim v [ array vs ↦ some vs | _ ↦ none ]

  abbrev pub as_object : Value D → Option (Members D)
  as_object v = elim v [ object ms ↦ some ms | _ ↦ none ]

  abbrev pub as_u64 : Value D → Option ℕ
  as_u64 v = elim v [ number n ↦ elim n [ pos_int k ↦ some k | _ ↦ none ] | _ ↦ none ]

-- `option.unwrap_or(default)`
abbrev pub unwrap_or : {A : Type 0} → Option A → A → A
unwrap_or none a = a
unwrap_or (some x) a = x

-- The code points of a text.
unfoldable pub code_points : String → List ℕ
code_points empty_text = []
code_points (cons_text c cs) = code c ∷ code_points cs
