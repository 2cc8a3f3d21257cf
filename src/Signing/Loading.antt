-- ===== src/Signing/Loading.antt =====
-- core/coordinator/component.go: which values of the environment variable load which keys.
use inx_coordinator.Base.{
  ℕ, Option, none, some, List, [], ◌∷◌, ◌++◌, ◌==◌, Error, invalid_private_key, Result, ok, err,
  All, ◌≡◌, ◌≢◌, ◌↔◌, refl, sym, ap, ◌∙◌, subst, inl, inr, Bool-cases, Result-cases, arith, ==_iff,
  ==_other,
}
use inx_coordinator.Signing.Keys.{
  Text, PrivateKey, comma, add_to_first, split, parse_keys, load_private_keys,
}

-- The parts with commas between them.
abbrev pub join : List Text → Text
join [] = []
join (p ∷ []) = p
join (p ∷ q ∷ ps) = p ++ (comma ∷ join (q ∷ ps))

-- A text without a comma.
abbrev pub HasNoComma : Text → Type 0
HasNoComma t = All (λ c. c ≢ comma) t

-- There is a part.
abbrev pub IsFilled : List Text → Type 0
IsFilled [] = ⊥
IsFilled (p ∷ ps) = Unit

-- Each part is the text of the key at its place.
abbrev pub Parses : (Text → Result PrivateKey) → List Text → List PrivateKey → Type 0
Parses parse [] [] = Unit
Parses parse (t ∷ ts) (k ∷ ks) = (parse t ≡ ok k) × Parses parse ts ks
Parses parse _ _ = ⊥

-- The value is a list of key texts, separated by commas.
pub record Lists (parse : Text → Result PrivateKey) (value : Text) (keys : List PrivateKey)
    : Type 0 where
  pub parts : List Text
  pub filled : IsFilled parts
  pub clean : All HasNoComma parts
  pub joined : value ≡ join parts
  pub parsed : Parses parse parts keys

join-add_to_first : (c : ℕ) (ps : List Text) → join (add_to_first c ps) ≡ c ∷ join ps
join-add_to_first c [] = refl
join-add_to_first c (p ∷ []) = refl
join-add_to_first c (p ∷ q ∷ ps) = refl

add_to_first-IsFilled : (c : ℕ) (ps : List Text) → IsFilled (add_to_first c ps)
add_to_first-IsFilled c [] = tt
add_to_first-IsFilled c (p ∷ ps) = tt

add_to_first-HasNoComma :
    (c : ℕ) (ps : List Text) → c ≢ comma → All HasNoComma ps → All HasNoComma (add_to_first c ps)
add_to_first-HasNoComma c [] n h = ((n, tt), tt)
add_to_first-HasNoComma c (p ∷ ps) n h = ((n, h.0), h.1)

split-IsFilled : (t : Text) → IsFilled (split comma t)
unfolding split
split-IsFilled [] = tt
split-IsFilled (c ∷ cs) = elim (Bool-cases (c == comma)) [
  | inl e ↦ rw e tt
  | inr e ↦ rw e (add_to_first-IsFilled c (split comma cs))
]

join_empty : (ps : List Text) → IsFilled ps → join ([] ∷ ps) ≡ comma ∷ join ps
join_empty [] h = absurd h
join_empty (p ∷ ps) h = refl

join-split : (t : Text) → join (split comma t) ≡ t
unfolding split
join-split [] = refl
join-split (c ∷ cs) = elim (Bool-cases (c == comma)) [
  | inl e ↦ rw e (
      join_empty (split comma cs) (split-IsFilled cs)
      ∙ ap (λ d. d ∷ join (split comma cs)) (sym ((==_iff c comma).0 e))
      ∙ ap (◌∷◌ c) (join-split cs))
  | inr e ↦ rw e (join-add_to_first c (split comma cs) ∙ ap (◌∷◌ c) (join-split cs))
]

split-HasNoComma : (t : Text) → All HasNoComma (split comma t)
unfolding split
split-HasNoComma [] = (tt, tt)
split-HasNoComma (c ∷ cs) = elim (Bool-cases (c == comma)) [
  | inl e ↦ rw e (tt, split-HasNoComma cs)
  | inr e ↦
      rw e (add_to_first-HasNoComma c (split comma cs) (λ s. ground arith) (split-HasNoComma cs))
]

split_clean : (p : Text) → HasNoComma p → split comma p ≡ p ∷ []
unfolding split
split_clean [] h = refl
split_clean (c ∷ p) h = rw (==_other c comma h.0) (ap (add_to_first c) (split_clean p h.1))

split_append : (p t : Text) → HasNoComma p → split comma (p ++ (comma ∷ t)) ≡ p ∷ split comma t
unfolding split
split_append [] t h = refl
split_append (c ∷ p) t h = rw (==_other c comma h.0) (ap (add_to_first c) (split_append p t h.1))

split-join : (ps : List Text) → IsFilled ps → All HasNoComma ps → split comma (join ps) ≡ ps
split-join [] f h = absurd f
split-join (p ∷ []) f h = split_clean p h.0
split-join (p ∷ q ∷ ps) f h =
    split_append p (join (q ∷ ps)) h.0 ∙ ap (◌∷◌ p) (split-join (q ∷ ps) tt h.1)

module _ (parse : Text → Result PrivateKey) where
  parse_miss :
      (t : Text) (ts : List Text) (e : Error)
      → parse t ≡ err e
      → parse_keys parse (t ∷ ts) ≡ err invalid_private_key
  unfolding parse_keys
  parse_miss t ts e p = simp (p, parse_keys) refl

  parse_stop :
      (t : Text) (ts : List Text) (k : PrivateKey) (e : Error)
      → parse t ≡ ok k
      → parse_keys parse ts ≡ err e
      → parse_keys parse (t ∷ ts) ≡ err e
  unfolding parse_keys
  parse_stop t ts k e p q = simp (p, q, parse_keys) refl

  parse_hit :
      (t : Text) (ts : List Text) (k : PrivateKey) (ks : List PrivateKey)
      → parse t ≡ ok k
      → parse_keys parse ts ≡ ok ks
      → parse_keys parse (t ∷ ts) ≡ ok (k ∷ ks)
  unfolding parse_keys
  parse_hit t ts k ks p q = simp (p, q, parse_keys) refl

  parse_keys-Parses :
      (ts : List Text) (ks : List PrivateKey) → parse_keys parse ts ≡ ok ks → Parses parse ts ks
  unfolding parse_keys
  parse_keys-Parses [] [] h = tt
  parse_keys-Parses [] (k ∷ ks) h = cc
  parse_keys-Parses (t ∷ ts) ks h = elim (Result-cases (parse t)) [
    | inr (e, p) ↦ cc (parse_miss t ts e p)
    | inl (k, p) ↦ elim (Result-cases (parse_keys parse ts)) [
      | inr (e, q) ↦ cc (parse_stop t ts k e p q)
      | inl (rest, q) ↦
          let same : k ∷ rest ≡ ks = cc (parse_hit t ts k rest p q) in
          subst (Parses parse (t ∷ ts)) same (p, parse_keys-Parses ts rest q)
    ]
  ]

  Parses-parse_keys :
      (ts : List Text) (ks : List PrivateKey) → Parses parse ts ks → parse_keys parse ts ≡ ok ks
  unfolding parse_keys
  Parses-parse_keys [] [] h = refl
  Parses-parse_keys [] (k ∷ ks) h = absurd h
  Parses-parse_keys (t ∷ ts) [] h = absurd h
  Parses-parse_keys (t ∷ ts) (k ∷ ks) h = parse_hit t ts k ks h.0 (Parses-parse_keys ts ks h.1)

  -- The variable has a value that lists the keys.
  pub record Holds (var : Option Text) (keys : List PrivateKey) : Type 0 where
    pub value : Text
    pub is_set : var ≡ some value
    pub not_empty : value ≢ []
    pub keys_listed : Lists parse value keys

  loaded :
      (var : Option Text) (ks : List PrivateKey)
      → load_private_keys parse var ≡ ok ks
      → Holds var ks
  unfolding load_private_keys
  loaded none ks h = cc
  loaded (some []) ks h = cc
  loaded (some (c ∷ cs)) ks h = record {
    value = c ∷ cs;
    is_set = refl;
    not_empty = λ e. cc;
    keys_listed = record {
      parts = split comma (c ∷ cs);
      filled = split-IsFilled (c ∷ cs);
      clean = split-HasNoComma (c ∷ cs);
      joined = sym (join-split (c ∷ cs));
      parsed = parse_keys-Parses (split comma (c ∷ cs)) ks h;
    };
  }

  load_value :
      (v : Text) (ks : List PrivateKey)
      → v ≢ []
      → Lists parse v ks
      → load_private_keys parse (some v) ≡ ok ks
  unfolding load_private_keys
  load_value [] ks n l = absurd (n refl)
  load_value (c ∷ cs) ks n l =
      ap (parse_keys parse) (ap (split comma) l.joined ∙ split-join l.parts l.filled l.clean)
      ∙ Parses-parse_keys l.parts ks l.parsed

  -- Keys are loaded exactly if the variable has a value that is not empty and lists the texts of these
  -- keys in this order, separated by commas.
  pub load_private_keys-Holds :
      (var : Option Text) (ks : List PrivateKey)
      → (load_private_keys parse var ≡ ok ks) ↔ Holds var ks
  load_private_keys-Holds var ks = (
    loaded var ks,
    (λ h.
        subst (λ o. load_private_keys parse o ≡ ok ks) (sym h.is_set)
          (load_value h.value ks h.not_empty h.keys_listed)),
  )

  Parses-filled :
      (ts : List Text) (ks : List PrivateKey) → IsFilled ts → Parses parse ts ks → ks ≢ []
  Parses-filled [] ks f p = absurd f
  Parses-filled (t ∷ ts) [] f p = absurd p
  Parses-filled (t ∷ ts) (k ∷ ks) f p = λ e. cc

  pub Holds-ne : (var : Option Text) (ks : List PrivateKey) → Holds var ks → ks ≢ []
  Holds-ne var ks h = Parses-filled h.keys_listed.parts ks h.keys_listed.filled h.keys_listed.parsed
