-- ===== src/Tests/Toy.antt =====
-- A node of the sample platform, and what it is run with.
use earthion_blockchain_dev.Base.{
  ℕ, zero, suc, All, ◌-◌, ◌^◌, ◌≤◌, ◌<◌, List, [], ◌∷◌, ◌++◌, map, replicate, none, some, true,
  Bytes, codes, bytes_equal, length, ◌==◌, if◌then◌else◌, ◌≡◌, refl, arith,
}
use native.Mathlib.Nat.{pow-le-pow_right}
use earthion_blockchain_dev.Base.Int.{pos}
use earthion_blockchain_dev.Base.Map.{insert}
use earthion_blockchain_dev.Base.Format.{IsByte}
use earthion_blockchain_dev.Crypto.Hash.{byte_sum, double_hash, hash}
use earthion_blockchain_dev.Core.Types.{Block}
use earthion_blockchain_dev.Core.Platform.{toy_platform}
use earthion_blockchain_dev.Core.Pow.{
  meets_target, pow_hash, prepare_data, target, bound_difficulty, set_bytes, initial_difficulty,
}
use earthion_blockchain_dev.Core.Pow.Difficulty.{bound_difficulty_range}
use earthion_blockchain_dev.Core.Chain.{new_blockchain, set_filename, rebuild_index}
use earthion_blockchain_dev.Wallet.{Wallet}
use earthion_blockchain_dev.Wallet.Files.{WalletGob}
use earthion_blockchain_dev.Storage.{Json, block_to_json}
use earthion_blockchain_dev.Server.Node.{Node, Env}
use earthion_blockchain_dev.Server.Answers.{Minable, IsSound}
use earthion_blockchain_dev.Server.Reachable.{fresh_node, Reachable, Reachable-IsSound}
use earthion_blockchain_dev.Start.{Boot, wallet_file, chain_file}

byte_sum_small : (d : Bytes) → byte_sum d < 256
byte_sum_small [] = omega arith
byte_sum_small (b ∷ d) = omega arith

zeros : (s : ℕ) → set_bytes 0 (replicate 31 0 ++ s ∷ []) ≡ s
unfolding set_bytes
zeros s = omega arith

large_target : (d : ℕ) → d ≤ 32 → 256 ≤ 2 ^ (256 - d)
large_target d h = pow-le-pow_right {n = 2} (omega arith) {i = 8} (omega arith)

target-large : (b : Block) → 256 ≤ target b
unfolding target
target-large b =
    let d = if b.difficulty == 0 then initial_difficulty else b.difficulty in
    large_target (bound_difficulty d) (bound_difficulty_range d).1

abbrev toy_hash : Bytes → Bytes
toy_hash d = replicate 31 0 ++ byte_sum d ∷ []

toy_wins : (b : Block) (d : Bytes) → meets_target toy_platform b (toy_hash d) ≡ true
unfolding meets_target
toy_wins b d =
    let small = zeros (byte_sum d) in ground (arith, small, byte_sum_small d, target-large b)

-- On the sample platform every nonce wins.
pub toy-Minable : Minable toy_platform
unfolding pow_hash double_hash hash
toy-Minable b = (0, omega arith, toy_wins b (toy_hash (prepare_data toy_platform b (pos 0))))

-- A wallet with a key of 32 bytes, and the codec of its file.
abbrev pub key_bytes : Bytes
key_bytes = replicate 32 3

abbrev pub keeper : Wallet
keeper = record { private_key_bytes = key_bytes; public_key = key_bytes }

abbrev pub keeper_gob : WalletGob
keeper_gob = record { encode = λ w. 1 ∷ []; decode = λ s. some keeper }

-- A decoder of one chain.
abbrev pub one_chain : List Block → Json
one_chain bs = record { encode = λ bjs. 1 ∷ []; decode = λ s. some (map block_to_json bs) }

-- A decoder that reads an array of no blocks, and nothing else.
abbrev pub no_blocks : Json
no_blocks = record {
  encode = λ bjs. codes "[]";
  decode = λ s. if bytes_equal s (codes "[]") then some [] else none;
}

abbrev pub env : Env
env = record {
  now = pos 200;
  can_create = true;
  nonce = 4 ∷ [];
  visit = λ m. m;
  visit_again = λ m. m;
}

abbrev pub boot : Boot
boot = record {
  load_now = pos 90;
  new_now = pos 100;
  private_key = some key_bytes;
  can_create_wallet = true;
}

-- The node of the first start.
abbrev pub start_node : Node
start_node = fresh_node toy_platform (pos 100) chain_file keeper (insert wallet_file (1 ∷ []) [])

pub start_node-Reachable : Reachable toy_platform start_node
start_node-Reachable = Reachable.start (pos 100) chain_file keeper (insert wallet_file (1 ∷ []) [])

pub start_node-IsSound : IsSound toy_platform start_node
start_node-IsSound = Reachable-IsSound toy_platform toy-Minable start_node-Reachable

pub length-start_node : length start_node.chain.blocks ≡ 1
unfolding fresh_node new_blockchain set_filename rebuild_index
length-start_node = refl

pub start_node_short : length start_node.chain.blocks < 2 ^ 62
start_node_short = omega (arith, length-start_node)

zeros-IsByte : (n : ℕ) (rest : Bytes) → All IsByte rest → All IsByte (replicate n 0 ++ rest)
zeros-IsByte zero rest h = h
zeros-IsByte (suc n) rest h = (omega arith, zeros-IsByte n rest h)

pub padded_sum-IsByte : (n : ℕ) (d : Bytes) → All IsByte (replicate n 0 ++ byte_sum d ∷ [])
padded_sum-IsByte n d = zeros-IsByte n (byte_sum d ∷ []) (byte_sum_small d, tt)

pub toy_sha256-IsByte : (d : Bytes) → All IsByte (toy_platform.digest.sha256 d)
toy_sha256-IsByte d = padded_sum-IsByte 31 d
