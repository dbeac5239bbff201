-- ===== src/Server/Grown.antt =====
-- What requests do to a node: the chain grows, and all else that a later start needs stays.
use earthion_blockchain_dev.Base.{
  ℕ, ◌+◌, ◌≤◌, List, [], ◌∷◌, ◌++◌, append-nil, append_assoc, length, length-append, Bytes,
  bytes_equal, bytes_equal_iff, ◌≡◌, ◌≢◌, refl, sym, ◌∙◌, ap, arith, Bool-cases, inl, inr,
}
use earthion_blockchain_dev.Base.Map.{lookup, insert, lookup-insert}
use earthion_blockchain_dev.Core.Types.{Block}
use earthion_blockchain_dev.Core.Platform.{Platform}
use earthion_blockchain_dev.Core.Transaction.{is_empty}
use earthion_blockchain_dev.Core.Chain.{Blockchain, Disk, update_index, save_to_file}
use earthion_blockchain_dev.Server.Node.{Node, Env}
use earthion_blockchain_dev.Server.Answers.{Minable, IsSound, saved, pushed, blocks-pushed}

-- From `n` to `n'` at most `k` blocks are put on top of the chain, the wallet, the name of the
-- chain's file and all other files stay, and the chain and its indices are right.
pub record IsGrown (p : Platform) (k : ℕ) (n n' : Node) : Type 0 where
  pub added : List Block
  pub grown : n'.chain.blocks ≡ n.chain.blocks ++ added
  pub at_most : length added ≤ k
  pub same_wallet : n'.wallet ≡ n.wallet
  pub same_filename : n'.chain.filename ≡ n.chain.filename
  pub other_files : (f : Bytes) → f ≢ n.chain.filename → lookup f n'.disk ≡ lookup f n.disk
  pub sound : IsSound p n'

module _ (p : Platform) where
  pub IsGrown-same : (k : ℕ) (n : Node) → IsSound p n → IsGrown p k n n
  IsGrown-same k n sound = record {
    added = [];
    grown = sym (append-nil n.chain.blocks);
    at_most = omega arith;
    same_wallet = refl;
    same_filename = refl;
    other_files = λ f ne. refl;
    sound = sound;
  }

  pub IsGrown-trans :
      {j k : ℕ} {a b c : Node} → IsGrown p j a b → IsGrown p k b c → IsGrown p (j + k) a c
  IsGrown-trans {a = a} g h = record {
    added = g.added ++ h.added;
    grown =
        h.grown ∙ ap (λ bs. bs ++ h.added) g.grown ∙ append_assoc a.chain.blocks g.added h.added;
    at_most = omega (arith, length-append g.added h.added, g.at_most, h.at_most);
    same_wallet = h.same_wallet ∙ g.same_wallet;
    same_filename = h.same_filename ∙ g.same_filename;
    other_files = λ f ne. h.other_files f (λ e. ne (e ∙ g.same_filename)) ∙ g.other_files f ne;
    sound = h.sound;
  }

  lookup-insert_other :
      (name f file : Bytes) (disk : Disk)
      → f ≢ name
      → lookup f (insert name file disk) ≡ lookup f disk
  lookup-insert_other name f file disk ne = elim (Bool-cases (bytes_equal name f)) [
    | inl same ↦ absurd (ne (sym ((bytes_equal_iff name f).0 same)))
    | inr other ↦ lookup-insert name f file disk ∙ rw other refl
  ]

  lookup-saved :
      (env : Env) (bc : Blockchain) (disk : Disk) (f : Bytes)
      → f ≢ bc.filename
      → lookup f (saved p env bc disk) ≡ lookup f disk
  unfolding save_to_file
  lookup-saved env bc disk f ne = elim (Bool-cases (is_empty bc.filename)) [
    | inl unnamed ↦ rw unnamed refl
    | inr named ↦ elim (Bool-cases env.can_create) [
      | inl creates ↦
          rw (named, creates) (lookup-insert_other bc.filename f (p.encode_chain bc.blocks) disk ne)
      | inr fails ↦ rw (named, fails) refl
    ]
  ]

  pub IsGrown-pushed :
      Minable p
      → (env : Env) (n : Node) (b : Block) → IsSound p (pushed p env b n)
      → IsGrown p 1 n (pushed p env b n)
  unfolding update_index
  IsGrown-pushed minable env n b sound = record {
    added = b ∷ [];
    grown = blocks-pushed p minable env n b;
    at_most = omega arith;
    same_wallet = refl;
    same_filename = refl;
    other_files = λ f ne. lookup-saved env _ n.disk f ne;
    sound = sound;
  }
