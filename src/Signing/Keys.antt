-- ===== src/Signing/Keys.antt =====
-- core/coordinator/component.go: the private keys in the environment. A text is the list of its bytes,
-- a private key the list of its bytes; hornet's `ParseEd25519PrivateKeyFromString` is a parameter.
use inx_coordinator.Base.{
  ℕ, Option, none, some, List, [], ◌∷◌, ◌==◌, if◌then◌else◌, Result, ok, err, environment_not_set,
  invalid_private_key, ◌>>=◌,
}

abbrev pub Text : Type 0
Text = List ℕ

abbrev pub PrivateKey : Type 0
PrivateKey = List ℕ

abbrev pub comma : ℕ
comma = b','

-- A byte before the first part.
abbrev pub add_to_first : ℕ → List Text → List Text
add_to_first c [] = (c ∷ []) ∷ []
add_to_first c (p ∷ ps) = (c ∷ p) ∷ ps

-- `strings.Split` with a separator of one byte.
unfoldable pub split : ℕ → Text → List Text
split sep [] = [] ∷ []
split sep (c ∷ cs) = if c == sep then [] ∷ split sep cs else add_to_first c (split sep cs)

-- The loop of `loadEd25519PrivateKeysFromEnvironment` over the parts.
unfoldable pub parse_keys : (Text → Result PrivateKey) → List Text → Result (List PrivateKey)
parse_keys parse [] = ok []
parse_keys parse (t ∷ ts) = elim (parse t) [
  | err e ↦ err invalid_private_key
  | ok k ↦ parse_keys parse ts >>= λ ks. ok (k ∷ ks)
]

-- `loadEd25519PrivateKeysFromEnvironment`, from what `os.LookupEnv` answers.
unfoldable pub load_private_keys :
    (Text → Result PrivateKey) → Option Text → Result (List PrivateKey)
unfolding split parse_keys
load_private_keys parse none = err environment_not_set
load_private_keys parse (some []) = err environment_not_set
load_private_keys parse (some (c ∷ cs)) = parse_keys parse (split comma (c ∷ cs))
