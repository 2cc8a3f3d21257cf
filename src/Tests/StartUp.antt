-- ===== src/Tests/StartUp.antt =====
-- The start of the component: options, an encoded state, and a bootstrap over a node with no milestone.
use inx_coordinator.Base.{
  ℕ, ◌≡◌, refl, ap, true, false, none, some, List, [], ◌∷◌, Option, All, arith, Error, Result, ok,
  err, external, StateFile, bytes_of, hash_length,
}
use inx_coordinator.Quorum.Config
use inx_coordinator.Signing.Choice.{init_signing_provider}
use inx_coordinator.Coordinator.Types.{State}
use inx_coordinator.Coordinator.Operations.{init_state, init_bootstrap}
use inx_coordinator.Coordinator.Json.{
  JsonState, Codec, marshal_json, unmarshal_json, unmarshal-marshal_json, KeepsRest,
  unmarshal_json-KeepsRest,
}
use inx_coordinator.Coordinator.Options.{
  Setting, with_milestone_interval, with_signing_retry_amount, with_quorum, Coordinator,
  lacks_treasury, new,
}
use inx_coordinator.Coordinator.Defaults.{IsSound, Creates, new-Creates}
use inx_coordinator.Runner.Wiring.{Parameters, NodeBridge, start_up}
use inx_coordinator.Runner.StartUp.{IsStarted, start_up-IsStarted}
use inx_coordinator.Tests.Migration.{plain_io}
use inx_coordinator.Tests.Coordination.{state_five}
use inx_coordinator.Tests.Signing.{manager, outside, two_signers}

-- Hex texts of one character, which is the number itself, and JSON as the list of the four values.
abbrev pack : ℕ → List ℕ → List ℕ → ℕ → Result (List ℕ)
pack i (b ∷ []) (m ∷ []) t = ok (i ∷ b ∷ m ∷ t ∷ [])
pack i _ _ t = err (external 5)

abbrev unpack : List ℕ → Result JsonState
unpack (i ∷ b ∷ m ∷ t ∷ []) = ok (record {
  latest_milestone_index = i;
  latest_milestone_block_id = b ∷ [];
  latest_milestone_id = m ∷ [];
  latest_milestone_time = t;
})
unpack _ = err (external 5)

unpack-pack :
    (i : ℕ) (x y : List ℕ) (t : ℕ) (b : List ℕ)
    → pack i x y t ≡ ok b
    → unpack b
      ≡ ok (record {
        latest_milestone_index = i;
        latest_milestone_block_id = x;
        latest_milestone_id = y;
        latest_milestone_time = t;
      })
unpack-pack i (x ∷ []) (y ∷ []) t b h = let e : b ≡ i ∷ x ∷ y ∷ t ∷ [] = cc in ap unpack e
unpack-pack i [] y t b h = cc
unpack-pack i (x ∷ z ∷ xs) y t b h = cc
unpack-pack i (x ∷ []) [] t b h = cc
unpack-pack i (x ∷ []) (y ∷ z ∷ ys) t b h = cc

abbrev one_byte : List ℕ → Result (List ℕ)
one_byte (i ∷ []) = ok (bytes_of hash_length i)
one_byte _ = err (external 6)

abbrev id_of : List ℕ → ℕ × Option Error
id_of (i ∷ []) = (i, none)
id_of _ = (0, some (external 6))

abbrev codec : Codec
codec = record {
  marshal = λ j.
      pack j.latest_milestone_index j.latest_milestone_block_id j.latest_milestone_id
        j.latest_milestone_time;
  unmarshal = unpack;
  to_hex = λ i. i ∷ [];
  decode_hex = one_byte;
  block_id_from_hex_string = id_of;
  unmarshal_marshal = λ j b h.
      unpack-pack j.latest_milestone_index j.latest_milestone_block_id j.latest_milestone_id
        j.latest_milestone_time b h;
  decode_to_hex = λ i. refl;
  block_id_to_hex = λ i h. refl;
}

abbrev blank : State
blank = record {
  latest_milestone_index = 0;
  latest_milestone_block_id = 0;
  latest_milestone_id = 0;
  latest_milestone_time = 0;
}

abbrev encoded_five : List ℕ
encoded_five = 5 ∷ 50 ∷ 55 ∷ 6000000000 ∷ []

encodes_five : marshal_json codec state_five ≡ ok encoded_five
unfolding marshal_json
encodes_five = refl

unmarshal-marshal_json_example : unmarshal_json codec encoded_five blank ≡ (ok tt, state_five)
unmarshal-marshal_json_example =
    unmarshal-marshal_json codec state_five blank encoded_five (omega arith) (omega arith)
      encodes_five

fails_on_text : unmarshal_json codec (1 ∷ []) state_five ≡ (err (external 5), state_five)
unfolding unmarshal_json
fails_on_text = refl

unmarshal_json-KeepsRest_example : KeepsRest codec state_five state_five
unmarshal_json-KeepsRest_example =
    unmarshal_json-KeepsRest codec (1 ∷ []) state_five state_five (external 5) fails_on_text

-- The later of two intervals, and no quorum.
abbrev settings : List Setting
settings =
    with_milestone_interval 3
    ∷ with_signing_retry_amount 0
    ∷ with_milestone_interval 5
    ∷ with_quorum false [] 9
    ∷ []

abbrev empty_file : StateFile State
empty_file = record { current = none; backup = none }

new-Creates_example :
    (All IsSound settings
      → lacks_treasury none true ≡ false
      → (c : Coordinator ℕ) × (new {F = ℕ} empty_file none true settings ≡ ok c))
    × ((c : Coordinator ℕ)
        → new {F = ℕ} empty_file none true settings ≡ ok c
        → Creates empty_file none true settings c)
new-Creates_example = new-Creates empty_file none true settings

abbrev parameters : Parameters
parameters = record {
  state_file_path = "coordinator.state";
  interval = 5000000000;
  signing_provider = "local";
  remote_address = [];
  retry_timeout = 2000000000;
  retry_amount = 10;
  quorum_enabled = false;
  quorum_groups = [];
  quorum_timeout = 2000000000;
  bootstrap = true;
  start_index = 1;
}

abbrev bridge : NodeBridge
bridge = record {
  milestone_key_ranges = [];
  milestone_public_key_count = 2;
  latest_milestone = ok none;
  new_key_manager = manager;
  add_key_range = λ r m. m;
}

abbrev started : Coordinator ℕ
started = record {
  opts = record {
    logger = some 1;
    state_file_path = "coordinator.state";
    milestone_interval = 5000000000;
    signing_retry_timeout = 2000000000;
    signing_retry_amount = 10;
    quorum = none;
  };
  world = record {
    state = record blank { latest_milestone_time = 8 };
    bootstrapped = false;
    file = empty_file;
    migrator = none;
    effects = [];
  };
  backpressure_funcs = false ∷ [];
}

starts :
    start_up {F = ℕ} outside (plain_io State) 8 1 parameters bridge empty_file none
    ≡ ok (two_signers, started)
unfolding start_up init_signing_provider new Config.with_quorum init_state init_bootstrap
starts = refl

start_up-IsStarted_example :
    IsStarted outside (plain_io State) 8 1 parameters bridge empty_file none two_signers started
start_up-IsStarted_example =
    start_up-IsStarted outside (plain_io State) 8 1 parameters bridge empty_file none two_signers
      started starts
