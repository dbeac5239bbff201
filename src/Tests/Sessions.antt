-- ===== src/Tests/Sessions.antt =====
-- The theorems on starts, sessions and restarts, at the node of the first start.
use earthion_blockchain_dev.Base.{
  suc, ◌+◌, ◌^◌, ◌<◌, [], ◌∷◌, some, true, false, codes, length, ◌≡◌, ◌≢◌, refl, arith, bytes_equal,
}
use earthion_blockchain_dev.Base.Map.{lookup, insert}
use earthion_blockchain_dev.Base.Outcome.{returns, panics}
use earthion_blockchain_dev.Core.Platform.{Platform, toy_platform}
use earthion_blockchain_dev.Core.Chain.Index.{IsIndexed}
use earthion_blockchain_dev.Core.Chain.{Disk, new_blockchain, set_filename}
use earthion_blockchain_dev.Core.Validate.{validate}
use earthion_blockchain_dev.Server.Node.{Node, Response}
use earthion_blockchain_dev.Server.Handlers.{handle_mine}
use earthion_blockchain_dev.Server.Grown.{IsGrown}
use earthion_blockchain_dev.Server.Reachable.{Reachable, fresh_node}
use earthion_blockchain_dev.Start.{
  wallet_file, chain_file, initialize, load_or_create_blockchain, shutdown, load_or_create_wallet,
}
use earthion_blockchain_dev.Start.Restart.{initialize-Reachable, initialize-shutdown}
use earthion_blockchain_dev.Start.Loss.{handle_mine_loses, handle_mine_panics}
use earthion_blockchain_dev.Cli.{Output, mine, exit, command_of, mine_block, exited, Line, run}
use earthion_blockchain_dev.Cli.Sound.{mine_block-handle_mine}
use earthion_blockchain_dev.Cli.Session.{NoExit, run-returns, run_never_returns}
use earthion_blockchain_dev.Cli.Program.{main, ended, main-eq, main-initialize}
use earthion_blockchain_dev.Tests.Toy.{
  toy-Minable, keeper, key_bytes, keeper_gob, one_chain, no_blocks, env, boot, start_node,
  start_node-IsSound, start_node_short, length-start_node, toy_sha256-IsByte,
}
use earthion_blockchain_dev.Wallet.Files.{load_wallet, new_wallet}
use earthion_blockchain_dev.Storage.{load_blockchain}

initialize-Reachable_example :
    (n : Node) × (initialize toy_platform keeper_gob no_blocks boot [] ≡ returns (some n))
    × (n.wallet ≡ keeper)
    × (n.disk ≡ insert wallet_file (keeper_gob.encode n.wallet) [])
    × (n.chain.blocks ≡ (new_blockchain toy_platform boot.new_now).blocks)
    × (length n.chain.blocks ≡ 1)
    × (n.chain.filename ≡ chain_file)
    × Reachable toy_platform n
unfolding lookup
initialize-Reachable_example =
    initialize-Reachable toy_platform keeper_gob no_blocks boot [] key_bytes key_bytes refl refl
      refl refl refl

wallet_on_disk : lookup wallet_file start_node.disk ≡ some (1 ∷ [])
unfolding lookup fresh_node insert bytes_equal
wallet_on_disk = refl

pub keeper_stays : keeper_gob.decode (1 ∷ []) ≡ some start_node.wallet
unfolding fresh_node
keeper_stays = refl

pub keeper_key : length start_node.wallet.private_key_bytes ≡ 32
unfolding fresh_node
keeper_key = refl

start_file : start_node.chain.filename ≡ chain_file
unfolding fresh_node set_filename
start_file = refl

-- Another process, whose gob of a transaction is a longer one.
abbrev pub next_platform : Platform
next_platform = record toy_platform { encode_tx = λ tx. 1 ∷ tx.id }

initialize-shutdown_example :
    (n' : Node) × (initialize next_platform keeper_gob
        (one_chain start_node.chain.blocks)
        boot
        (shutdown (one_chain start_node.chain.blocks) true start_node)
      ≡ returns (some n'))
    × (n'.chain.blocks ≡ start_node.chain.blocks)
    × (n'.chain.filename ≡ chain_file)
    × (n'.wallet ≡ start_node.wallet)
    × IsIndexed n'.chain
initialize-shutdown_example =
    initialize-shutdown keeper_gob (one_chain start_node.chain.blocks) toy_platform next_platform
      boot start_node (1 ∷ []) start_node-IsSound toy_sha256-IsByte wallet_on_disk keeper_stays
      keeper_key refl

handle_mine_loses_example :
    (n' : Node) × (r : Response) × (handle_mine toy_platform env start_node ≡ returns (n', r))
    × (load_or_create_blockchain toy_platform keeper_gob no_blocks boot n'.disk
        ≡ set_filename chain_file (new_blockchain toy_platform boot.new_now))
unfolding bytes_equal
handle_mine_loses_example =
    handle_mine_loses toy_platform keeper_gob no_blocks boot toy-Minable env start_node
      start_node_short start_node-IsSound start_file refl (λ bs. refl)

-- A chain file with an empty array.
abbrev empty_disk : Disk
empty_disk = (chain_file, codes "[]") ∷ []

abbrev empty_node : Node
empty_node = record {
  chain = load_or_create_blockchain toy_platform keeper_gob no_blocks boot empty_disk;
  wallet = keeper;
  disk = empty_disk;
}

handle_mine_panics_example :
    (validate toy_platform empty_node.chain.blocks ≡ returns false)
    × (handle_mine toy_platform env empty_node ≡ panics)
unfolding lookup bytes_equal
handle_mine_panics_example =
    handle_mine_panics toy_platform keeper_gob no_blocks boot env keeper empty_disk (codes "[]")
      refl refl

mine_block-handle_mine_example :
    (n' : Node) × (r : Response) × (out : Output) × (handle_mine toy_platform env start_node
      ≡ returns (n', r))
    × (mine_block toy_platform env start_node ≡ returns (n', out))
    × IsGrown toy_platform 1 start_node n'
mine_block-handle_mine_example =
    mine_block-handle_mine toy_platform toy-Minable env start_node start_node_short
      start_node-IsSound

-- The lines "mine" and "exit".
abbrev mine_line : Line
mine_line = record { fields = codes "mine" ∷ []; env = env }

abbrev exit_line : Line
exit_line = record { fields = codes "exit" ∷ []; env = env }

mine_mines : command_of mine_line.fields ≡ mine
unfolding command_of bytes_equal
mine_mines = refl

mine_goes_on : NoExit (mine_line ∷ [])
mine_goes_on = ((λ e. cc (e, mine_mines)), tt)

exit_ends : command_of exit_line.fields ≡ exit
unfolding command_of bytes_equal
exit_ends = refl

session_short : length start_node.chain.blocks + length (mine_line ∷ []) < 2 ^ 62
session_short = omega (arith, length-start_node)

run-returns_example :
    (n' : Node) × (run toy_platform
        (suc (length (mine_line ∷ [])) + 0)
        (mine_line ∷ exit_line ∷ [])
        start_node
      ≡ returns (exited n'))
    × IsGrown toy_platform (length (mine_line ∷ [])) start_node n'
run-returns_example =
    run-returns toy_platform toy-Minable (mine_line ∷ []) [] exit_line 0 start_node mine_goes_on
      exit_ends session_short start_node-IsSound

run_never_returns_example :
    run toy_platform 50 (mine_line ∷ []) start_node ≢ returns (exited start_node)
run_never_returns_example =
    run_never_returns toy_platform 50 (mine_line ∷ []) start_node start_node mine_goes_on

-- The node at the end of the session.
abbrev end_node : Node
end_node = run-returns_example.0

abbrev end_disk : Disk
end_disk = shutdown (one_chain end_node.chain.blocks) true end_node

first_start :
    initialize toy_platform keeper_gob (one_chain end_node.chain.blocks) boot []
    ≡ returns (some start_node)
unfolding initialize fresh_node load_or_create_wallet load_wallet lookup new_wallet new_blockchain
    load_blockchain insert bytes_equal
first_start = refl

session_over :
    main toy_platform keeper_gob
      (one_chain end_node.chain.blocks)
      boot
      true
      (suc (length (mine_line ∷ [])) + 0)
      (mine_line ∷ exit_line ∷ [])
      []
    ≡ returns (ended end_node end_disk)
session_over =
    main-eq toy_platform keeper_gob (one_chain end_node.chain.blocks) boot
      (suc (length (mine_line ∷ [])) + 0) (mine_line ∷ exit_line ∷ []) [] start_node end_node
      first_start run-returns_example.1

main-initialize_example :
    IsGrown toy_platform (length (mine_line ∷ [])) start_node end_node
    × ((n' : Node) × (initialize next_platform keeper_gob
            (one_chain end_node.chain.blocks)
            boot
            end_disk
          ≡ returns (some n'))
        × (n'.chain.blocks ≡ end_node.chain.blocks)
        × (n'.chain.filename ≡ chain_file)
        × (n'.wallet ≡ start_node.wallet)
        × IsIndexed n'.chain)
main-initialize_example =
    main-initialize toy_platform keeper_gob (one_chain end_node.chain.blocks) next_platform
      toy-Minable boot boot (mine_line ∷ []) [] exit_line 0 [] end_disk start_node end_node (1 ∷ [])
      first_start start_node-IsSound start_file mine_goes_on exit_ends session_short session_over
      toy_sha256-IsByte wallet_on_disk keeper_stays keeper_key refl
