-- ===== src/Config/Json.antt =====
-- What src/config/parser.cpp uses of boost::json, which is a parameter: the values, the incremental
-- parser, and the serializer.
use asio_ftp.Base.{
  ℤ, ◌≡◌, refl, Bool, true, false, List, Bytes, if◌then◌else◌, Result, returned, thrown,
  system_error,
}

-- `boost::json::kind`
pub data JsonKind : Type 0 where
  null_kind bool_kind int64_kind uint64_kind double_kind string_kind array_kind object_kind :
      JsonKind

unfoldable pub same_kind : JsonKind → JsonKind → Bool
same_kind null_kind null_kind = true
same_kind bool_kind bool_kind = true
same_kind int64_kind int64_kind = true
same_kind uint64_kind uint64_kind = true
same_kind double_kind double_kind = true
same_kind string_kind string_kind = true
same_kind array_kind array_kind = true
same_kind object_kind object_kind = true
same_kind _ _ = false

pub same_kind→≡ : (k l : JsonKind) → same_kind k l ≡ true → k ≡ l
unfolding same_kind
same_kind→≡ null_kind null_kind h = refl
same_kind→≡ bool_kind bool_kind h = refl
same_kind→≡ int64_kind int64_kind h = refl
same_kind→≡ uint64_kind uint64_kind h = refl
same_kind→≡ double_kind double_kind h = refl
same_kind→≡ string_kind string_kind h = refl
same_kind→≡ array_kind array_kind h = refl
same_kind→≡ object_kind object_kind h = refl
same_kind→≡ _ _ h = cc

pub record Json : Type 1 where
  pub Value : Type 0
  pub kind : Value → JsonKind
  -- What a value holds that has the kind for it.
  pub held_bool : Value → Bool
  pub held_int64 : Value → ℤ
  pub held_string : Value → Bytes
  pub held_array : Value → List Value
  pub held_object : Value → List (Bytes × Value)
  -- The values that the initializer lists of the header stand for.
  pub of_bool : Bool → Value
  pub of_int : ℤ → Value
  pub of_string : Bytes → Value
  pub of_array : List Value → Value
  pub of_object : List (Bytes × Value) → Value
  -- `serialize` of an object.
  pub serialize : List (Bytes × Value) → Bytes
  -- `stream_parser`: whether a call sets the error code, and the parser behind.
  pub Parser : Type 0
  pub parser : Parser
  pub write_fails : Parser → Bytes → Bool
  pub written : Parser → Bytes → Parser
  pub finish_fails : Parser → Bool
  pub release : Parser → Value

module _ (J : Json) where
  open J use {Value}

  -- The accessors throw where the value has another kind.
  unfoldable pub as_bool : Value → Result Bool
  as_bool v =
      if same_kind (J.kind v) bool_kind then returned (J.held_bool v) else thrown system_error

  unfoldable pub as_int64 : Value → Result ℤ
  as_int64 v =
      if same_kind (J.kind v) int64_kind then returned (J.held_int64 v) else thrown system_error

  unfoldable pub as_string : Value → Result Bytes
  as_string v =
      if same_kind (J.kind v) string_kind then returned (J.held_string v) else thrown system_error

  unfoldable pub as_array : Value → Result (List Value)
  as_array v =
      if same_kind (J.kind v) array_kind then returned (J.held_array v) else thrown system_error

  unfoldable pub as_object : Value → Result (List (Bytes × Value))
  as_object v =
      if same_kind (J.kind v) object_kind then returned (J.held_object v) else thrown system_error
