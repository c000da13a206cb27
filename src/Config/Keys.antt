-- ===== src/Config/Keys.antt =====
-- src/config/parser.cpp: what the members of the configuration object do to the settings.
use asio_ftp.Base.{
  ℤ, ◌≡◌, sym, subst, ◌∙◌, ap, Bool, false, some, List, [], ◌∷◌, Bytes, codes, same, same→≡,
  if◌then◌else◌, Bool-cases, inl, inr, returned, >>=-returned, arith,
}
use asio_ftp.Config.Json.{
  Json, JsonKind, bool_kind, int64_kind, array_kind, same_kind, same_kind→≡, as_bool, as_int64,
}
use asio_ftp.Config.Defaults.{ParsedConfig, to_int}
use asio_ftp.Config.Reader.{config_value_type, use_value, read_known, read_members}

-- A key that the table has, and another one.
pub by_key {ℓ} :
    (P : Bytes → Type ℓ)
    → P (codes "secure")
    → P (codes "port")
    → P (codes "users")
    → ((key : Bytes)
        → same key (codes "secure") ≡ false
        → same key (codes "port") ≡ false
        → same key (codes "users") ≡ false
        → P key)
    → (key : Bytes) → P key
by_key P secure port users unknown key = elim (Bool-cases (same key (codes "secure"))) [
  | inl is ↦ subst P (sym (same→≡ key (codes "secure") is)) secure
  | inr no_secure ↦ elim (Bool-cases (same key (codes "port"))) [
    | inl is ↦ subst P (sym (same→≡ key (codes "port") is)) port
    | inr no_port ↦ elim (Bool-cases (same key (codes "users"))) [
      | inl is ↦ subst P (sym (same→≡ key (codes "users") is)) users
      | inr no_users ↦ unknown key no_secure no_port no_users
    ]
  ]
]

module _ (J : Json) where
  open J use {Value}

  -- The value that the last member of a key gives, or the one there was.
  abbrev pub secure_after : List (Bytes × Value) → Bool → Bool
  secure_after [] b = b
  secure_after ((key, v) ∷ members) b =
      secure_after members (if same key (codes "secure") then J.held_bool v else b)

  abbrev pub port_after : List (Bytes × Value) → ℤ → ℤ
  port_after [] n = n
  port_after ((key, v) ∷ members) n =
      port_after members (if same key (codes "port") then to_int (J.held_int64 v) else n)

  known_lem :
      (expected : JsonKind) (key : Bytes) (v : Value) (cfg cfg' : ParsedConfig)
      → read_known J (some expected) key v cfg ≡ returned cfg'
      → (J.kind v ≡ expected) × (use_value J expected key v cfg ≡ returned cfg')
  unfolding read_known
  known_lem expected key v cfg cfg' e = elim (Bool-cases (same_kind (J.kind v) expected)) [
    | inl right ↦
        let k = same_kind→≡ (J.kind v) expected right in
        (k, ap (λ x. use_value J x key v cfg) (sym k) ∙ ground (arith, right, e))
    | inr wrong ↦ absurd (ground (arith, wrong, e))
  ]

  secure_lem :
      (v : Value) (cfg cfg' : ParsedConfig)
      → use_value J bool_kind (codes "secure") v cfg ≡ returned cfg'
      → cfg' ≡ record cfg { secure = J.held_bool v }
  unfolding use_value as_bool same
  secure_lem v cfg cfg' e = ground (arith, e)

  port_lem :
      (v : Value) (cfg cfg' : ParsedConfig)
      → use_value J int64_kind (codes "port") v cfg ≡ returned cfg'
      → cfg' ≡ record cfg { port = to_int (J.held_int64 v) }
  unfolding use_value as_int64 same
  port_lem v cfg cfg' e = ground (arith, e)

  users_lem :
      (v : Value) (key : Bytes) (cfg cfg' : ParsedConfig)
      → use_value J array_kind key v cfg ≡ returned cfg'
      → (cfg'.secure ≡ cfg.secure) × (cfg'.port ≡ cfg.port)
  unfolding use_value
  users_lem v key cfg cfg' e = ground (arith, e)

  -- What a member leaves behind.
  abbrev Left : Bytes → Value → ParsedConfig → ParsedConfig → Type 0
  Left key v cfg cfg' =
      (cfg'.secure ≡ (if same key (codes "secure") then J.held_bool v else cfg.secure))
      × (cfg'.port ≡ (if same key (codes "port") then to_int (J.held_int64 v) else cfg.port))

  -- What holds of a member with a key.
  abbrev Follows : Bytes → Type 0
  Follows key =
      (v : Value) (cfg cfg' : ParsedConfig)
      → read_known J (config_value_type key) key v cfg ≡ returned cfg'
      → Left key v cfg cfg'

  secure_Follows : Follows (codes "secure")
  unfolding config_value_type same
  secure_Follows v cfg cfg' e =
      let whole = secure_lem v cfg cfg' (known_lem bool_kind (codes "secure") v cfg cfg' e).1 in
      (ap (λ (c : ParsedConfig). c.secure) whole, ap (λ (c : ParsedConfig). c.port) whole)

  port_Follows : Follows (codes "port")
  unfolding config_value_type same
  port_Follows v cfg cfg' e =
      let whole = port_lem v cfg cfg' (known_lem int64_kind (codes "port") v cfg cfg' e).1 in
      (ap (λ (c : ParsedConfig). c.secure) whole, ap (λ (c : ParsedConfig). c.port) whole)

  users_Follows : Follows (codes "users")
  unfolding config_value_type same
  users_Follows v cfg cfg' e =
      users_lem v (codes "users") cfg cfg' (known_lem array_kind (codes "users") v cfg cfg' e).1

  unknown_Follows :
      (key : Bytes)
      → same key (codes "secure") ≡ false
      → same key (codes "port") ≡ false
      → same key (codes "users") ≡ false
      → Follows key
  unfolding config_value_type read_known
  unknown_Follows key a b c v cfg cfg' e = ground (arith, a, b, c, e)

  key_Follows : (key : Bytes) → Follows key
  key_Follows = by_key Follows secure_Follows port_Follows users_Follows unknown_Follows

  -- Where the members of a configuration object are read without an exception, the encryption
  -- setting and the port are those of the last member with the key for them, the port cut to an
  -- `int`, or the ones before where there is none. No other member changes them.
  pub read_members-last :
      (members : List (Bytes × Value)) (cfg cfg' : ParsedConfig)
      → read_members J members cfg ≡ returned cfg'
      → (cfg'.secure ≡ secure_after members cfg.secure) × (cfg'.port ≡ port_after members cfg.port)
  unfolding read_members
  read_members-last [] cfg cfg' e = ground (arith, e)
  read_members-last ((key, v) ∷ members) cfg cfg' e =
      let (next, first, rest) =
        >>=-returned (read_known J (config_value_type key) key v cfg) (read_members J members) e in
      let (secure, port) = key_Follows key v cfg next first in
      let (secure', port') = read_members-last members next cfg' rest in
      (secure' ∙ ap (secure_after members) secure, port' ∙ ap (port_after members) port)
