-- ===== src/Coordinator/Json.antt =====
-- pkg/coordinator/state.go: the state as JSON. Go's `encoding/json` and iota.go's hex functions are
-- parameters; a text and an encoded state are lists of bytes. A time between 1970 and 2262 is its
-- nanoseconds as an int64.
use inx_coordinator.Base.{
  ℕ, ◌^◌, ◌<◌, none, some, Option, List, Error, Result, ok, err, ◌≡◌, refl, sym, ap, ◌∙◌, subst,
  inl, inr, copied, number, bytes_of, hash_length, number-copied, Result-cases, Option-cases,
}
use inx_coordinator.Coordinator.Types.{State}

-- `jsoncoostate`
pub record JsonState : Type 0 where
  pub latest_milestone_index : ℕ
  pub latest_milestone_block_id : List ℕ
  pub latest_milestone_id : List ℕ
  pub latest_milestone_time : ℕ

-- `json.Marshal` and `json.Unmarshal` on `jsoncoostate`, and iota.go's hex functions: what is encoded
-- is decoded. `BlockIDFromHexString` returns an ID beside an error, too.
pub record Codec : Type 0 where
  pub marshal : JsonState → Result (List ℕ)
  pub unmarshal : List ℕ → Result JsonState
  pub to_hex : ℕ → List ℕ
  pub decode_hex : List ℕ → Result (List ℕ)
  pub block_id_from_hex_string : List ℕ → ℕ × Option Error
  pub unmarshal_marshal : (j : JsonState) (b : List ℕ) → marshal j ≡ ok b → unmarshal b ≡ ok j
  pub decode_to_hex : (i : ℕ) → decode_hex (to_hex i) ≡ ok (bytes_of hash_length i)
  pub block_id_to_hex :
      (i : ℕ) → i < 256 ^ hash_length → block_id_from_hex_string (to_hex i) ≡ (i, none)

module _ (codec : Codec) where
  abbrev encoded : State → JsonState
  encoded s = record {
    latest_milestone_index = s.latest_milestone_index;
    latest_milestone_block_id = codec.to_hex s.latest_milestone_block_id;
    latest_milestone_id = codec.to_hex s.latest_milestone_id;
    latest_milestone_time = s.latest_milestone_time;
  }

  -- `MarshalJSON`
  unfoldable pub marshal_json : State → Result (List ℕ)
  marshal_json s = codec.marshal (encoded s)

  -- `UnmarshalJSON` behind the block ID.
  unfoldable pub set_rest : JsonState → State → Result (Unit {0}) × State
  unfolding copied number
  set_rest j s = elim (codec.decode_hex j.latest_milestone_id) [
    | err e ↦ (err e, s)
    | ok bytes ↦ (
      ok tt,
      record s {
        latest_milestone_index = j.latest_milestone_index;
        latest_milestone_id = number (copied hash_length bytes);
        latest_milestone_time = j.latest_milestone_time;
      },
    )
  ]

  -- `UnmarshalJSON` with the decoded JSON: the block ID is set also beside an error.
  unfoldable pub set_state : JsonState → State → Result (Unit {0}) × State
  unfolding set_rest
  set_state j s =
      let (id, error) = codec.block_id_from_hex_string j.latest_milestone_block_id in
      let s' = record s { latest_milestone_block_id = id } in
      elim error [ some e ↦ (err e, s') | none ↦ set_rest j s' ]

  -- `UnmarshalJSON`
  unfoldable pub unmarshal_json : List ℕ → State → Result (Unit {0}) × State
  unfolding set_state
  unmarshal_json b s = elim (codec.unmarshal b) [ err e ↦ (err e, s) | ok j ↦ set_state j s ]

  unmarshal_json_eq :
      (b : List ℕ) (j : JsonState) (s : State)
      → codec.unmarshal b ≡ ok j
      → unmarshal_json b s ≡ set_state j s
  unfolding unmarshal_json
  unmarshal_json_eq b j s h = simp (h, unmarshal_json) refl

  set_state_eq :
      (j : JsonState) (i : ℕ) (o : Option Error) (s : State)
      → codec.block_id_from_hex_string j.latest_milestone_block_id ≡ (i, o)
      → set_state j s ≡ elim o [
        | some e ↦ (err e, record s { latest_milestone_block_id = i })
        | none ↦ set_rest j (record s { latest_milestone_block_id = i })
      ]
  unfolding set_state
  set_state_eq j i o s h =
      ap
        (λ (p : ℕ × Option Error). elim p.1 [
          | some e ↦ (err e, record s { latest_milestone_block_id = p.0 })
          | none ↦ set_rest j (record s { latest_milestone_block_id = p.0 })
        ])
        h

  set_rest_ok :
      (j : JsonState) (bytes : List ℕ) (s : State)
      → codec.decode_hex j.latest_milestone_id ≡ ok bytes
      → set_rest j s ≡ (
        ok tt,
        record s {
          latest_milestone_index = j.latest_milestone_index;
          latest_milestone_id = number (copied hash_length bytes);
          latest_milestone_time = j.latest_milestone_time;
        },
      )
  unfolding set_rest
  set_rest_ok j bytes s h = simp (h, set_rest) refl

  set_rest_err :
      (j : JsonState) (e : Error) (s : State)
      → codec.decode_hex j.latest_milestone_id ≡ err e
      → set_rest j s ≡ (err e, s)
  unfolding set_rest
  set_rest_err j e s h = simp (h, set_rest) refl

  -- A state with 32 byte IDs that was encoded is decoded, whatever the state held before.
  pub unmarshal-marshal_json :
      (s t : State) (b : List ℕ)
      → s.latest_milestone_block_id < 256 ^ hash_length
      → s.latest_milestone_id < 256 ^ hash_length
      → marshal_json s ≡ ok b
      → unmarshal_json b t ≡ (ok tt, s)
  unfolding marshal_json
  unmarshal-marshal_json s t b p q h =
      unmarshal_json_eq b (encoded s) t (codec.unmarshal_marshal (encoded s) b h)
      ∙ set_state_eq (encoded s) s.latest_milestone_block_id none t
          (codec.block_id_to_hex s.latest_milestone_block_id p)
      ∙ set_rest_ok (encoded s) (bytes_of hash_length s.latest_milestone_id) _
          (codec.decode_to_hex s.latest_milestone_id)
      ∙ ap (λ i. (ok tt, record s { latest_milestone_id = i }))
          (number-copied hash_length s.latest_milestone_id q)

  -- Only the block ID may differ.
  pub record KeepsRest (s t : State) : Type 0 where
    pub index_eq : t.latest_milestone_index ≡ s.latest_milestone_index
    pub id_eq : t.latest_milestone_id ≡ s.latest_milestone_id
    pub time_eq : t.latest_milestone_time ≡ s.latest_milestone_time

  -- A failure keeps the rest.
  abbrev FailsSafe : State → Result (Unit {0}) × State → Type 0
  FailsSafe s (ok u, t) = Unit
  FailsSafe s (err e, t) = KeepsRest s t

  kept : (s : State) (i : ℕ) → KeepsRest s (record s { latest_milestone_block_id = i })
  kept s i = record { index_eq = refl; id_eq = refl; time_eq = refl }

  set_rest-FailsSafe :
      (j : JsonState) (s : State) (i : ℕ)
      → FailsSafe s (set_rest j (record s { latest_milestone_block_id = i }))
  set_rest-FailsSafe j s i = elim (Result-cases (codec.decode_hex j.latest_milestone_id)) [
    | inl (bytes, h) ↦ subst (FailsSafe s) (sym (set_rest_ok j bytes _ h)) tt
    | inr (e, h) ↦ subst (FailsSafe s) (sym (set_rest_err j e _ h)) (kept s i)
  ]

  set_state-FailsSafe : (j : JsonState) (s : State) → FailsSafe s (set_state j s)
  set_state-FailsSafe j s =
      let p = codec.block_id_from_hex_string j.latest_milestone_block_id in
      elim (Option-cases p.1) [
        | inl h ↦
            subst (FailsSafe s) (sym (set_state_eq j p.0 none s (λ i. (p.0, h i))))
              (set_rest-FailsSafe j s p.0)
        | inr (e, h) ↦
            subst (FailsSafe s) (sym (set_state_eq j p.0 (some e) s (λ i. (p.0, h i)))) (kept s p.0)
      ]

  unmarshal_json_err :
      (b : List ℕ) (e : Error) (s : State)
      → codec.unmarshal b ≡ err e
      → unmarshal_json b s ≡ (err e, s)
  unfolding unmarshal_json
  unmarshal_json_err b e s h = simp (h, unmarshal_json) refl

  decode-FailsSafe : (b : List ℕ) (s : State) → FailsSafe s (unmarshal_json b s)
  decode-FailsSafe b s = elim (Result-cases (codec.unmarshal b)) [
    | inl (j, h) ↦ subst (FailsSafe s) (sym (unmarshal_json_eq b j s h)) (set_state-FailsSafe j s)
    | inr (e, h) ↦
        subst (FailsSafe s) (sym (unmarshal_json_err b e s h)) (kept s s.latest_milestone_block_id)
  ]

  -- An error of `UnmarshalJSON`, at any of its three decodings, leaves the index, the milestone ID and
  -- the time of the state as they were.
  pub unmarshal_json-KeepsRest :
      (b : List ℕ) (s t : State) (e : Error) → unmarshal_json b s ≡ (err e, t) → KeepsRest s t
  unmarshal_json-KeepsRest b s t e h = subst (FailsSafe s) h (decode-FailsSafe b s)
