-- ===== src/Tests/Solana.antt =====
-- Tests of the driver of Solana, with a toy library: a transaction is its instructions and signatures.
use crosschain_enhanced_by_a.Prelude.{
  ℕ, true, false, List, [], ◌∷◌, ◌++◌, Option, none, some, ok, ◌≡◌, refl, subst, if◌then◌else◌,
}
use crosschain_enhanced_by_a.Prelude.Int.{pos}
use crosschain_enhanced_by_a.Prelude.Text.{Text, codes, eq_text, is_empty}
use crosschain_enhanced_by_a.Asset.Config.{TokenConfig, empty_config}
use crosschain_enhanced_by_a.Solana.{
  Key, TxInput, Instruction, transfer, create_ata, transfer_checked, close_account, Decoded,
  system_transfer, token_checked, other, Sol, token, single, key_of, find_associated_token_address,
  must_key,
}
use crosschain_enhanced_by_a.Solana.Tx.{Tx, parse_transfer, to_alt}
use crosschain_enhanced_by_a.Solana.Builder.{
  unsigned, build_solana_tx, new_native_transfer, token_destination, creation, token_transfer_of,
}
use crosschain_enhanced_by_a.Solana.Laws.{ReadsAll, IsSol}
use crosschain_enhanced_by_a.Solana.TokenRead.{ReadsToken, token_transfer_of-ReadsToken}
use crosschain_enhanced_by_a.Solana.Client.{
  Node, Response, TxInfo, fetch_tx_input, input_contract, token_input, is_ata, account_asked,
  fetch_tx_info,
}
use crosschain_enhanced_by_a.Solana.Client.Fresh.{fetch_tx_input-misdirects}
use crosschain_enhanced_by_a.Solana.Client.Sent.{Tells, fetch_tx_info-Tells}

abbrev toy_key : Text → Option Key
toy_key [] = none
toy_key (x ∷ s) = some (x ∷ s)

abbrev toy_program : Instruction → Key
toy_program (transfer n a b) = 0 ∷ []
toy_program (create_ata a b c) = 1 ∷ []
toy_program (transfer_checked n d a b c e) = 2 ∷ []
toy_program (close_account a b c) = 2 ∷ []

abbrev toy_decode : Instruction → Decoded
toy_decode (transfer n a b) = system_transfer n a b
toy_decode (transfer_checked n d source mint destination owner) =
    token_checked n mint destination owner
toy_decode _ = other

abbrev toy : Sol
toy = record {
  Transaction = List Instruction × List (List ℕ);
  Compiled = Instruction;
  key_of_base58 = toy_key;
  signature_of_base58 = λ s. if is_empty s then none else some s;
  base58 = λ k. k;
  find_ata = λ wallet mint. some (wallet ++ mint);
  system_id = 0 ∷ [];
  token_id = 2 ∷ [];
  vote_id = 3 ∷ [];
  new_transaction = λ is hash payer. some (is, []);
  instructions_of = λ t. t.0;
  program_of = λ t i. some (toy_program i);
  accounts_of = λ t i. some [];
  decode_system = λ ks i. some (toy_decode i);
  decode_token = λ ks i. some (toy_decode i);
  decode_vote = λ ks i. some (toy_decode i);
  signatures_of = λ t. t.1;
  with_signatures = λ t ss. (t.0, ss);
  message_bytes = λ t. some [];
  marshal_binary = λ t. some [];
  block_hash_of = λ t. [];
}

toy_reads : (t : toy.Transaction) (is : List Instruction) → ReadsAll toy t is is
unfolding eq_text
toy_reads t [] = tt
toy_reads t (transfer n a b ∷ is) = (([], refl, refl, refl), toy_reads t is)
toy_reads t (create_ata a b c ∷ is) = ((1 ∷ [], refl, refl, refl), toy_reads t is)
toy_reads t (transfer_checked n d a b c e ∷ is) = (([], refl, refl, refl), toy_reads t is)
toy_reads t (close_account a b c ∷ is) = (([], refl, refl, refl), toy_reads t is)

toy_laws : IsSol toy
unfolding eq_text
toy_laws = record {
  prints = toy_prints;
  holds = λ is hash payer t e. subst (λ t. ReadsAll toy t t.0 is) (made e) (toy_reads (is, []) is);
  programs_differ = refl;
}
  where
    toy_prints : (s : Text) (k : Key) → toy_key s ≡ some k → k ≡ s
    toy_prints [] k e = cc
    toy_prints (x ∷ s) k e = cc

    made :
        {t u : List Instruction × List (List ℕ)}
        → ◌≡◌ {A = Option (List Instruction × List (List ℕ))} (some t) (some u)
        → t ≡ u
    made e = cc

abbrev alice : Text
alice = codes "alice"

abbrev bob : Text
bob = codes "bob"

abbrev mint : Text
mint = codes "mint"

abbrev input : TxInput
input = record { recent_block_hash = 7 ∷ []; to_is_ata = false; should_create_ata = true }

built_token : (tx : Tx toy) × (token_transfer_of toy mint 6 alice bob (pos 25) input ≡ ok tx)
unfolding token_transfer_of key_of find_associated_token_address must_key token_destination creation
    build_solana_tx
built_token = (_, refl)

token_transfer_of-ReadsToken_example :
    ReadsToken toy toy_laws mint alice bob (pos 25) input (parse_transfer toy built_token.0)
token_transfer_of-ReadsToken_example =
    token_transfer_of-ReadsToken toy toy_laws mint 6 alice bob (pos 25) input built_token.0
      built_token.1

sent :
    (t : toy.Transaction) × (new_native_transfer toy alice bob (pos 9) input ≡ ok (unsigned toy t))
unfolding new_native_transfer key_of build_solana_tx
sent = (_, refl)

answer : Response toy
answer = record { decoded = some (some sent.0); slot = 12; block_time = none; fee = some 5000 }

-- A node that has the transaction of one signature.
get_answer : List ℕ → Option (Response toy)
unfolding eq_text
get_answer signature = if eq_text signature (codes "sig") then some answer else none

fetch_tx_info-Tells_example :
    (info : TxInfo toy) × (fetch_tx_info toy get_answer
        (some 20)
        (λ k. none)
        empty_config
        (codes "sig")
      ≡ ok info)
    × Tells toy (codes "sig") alice bob (pos 9) 5000 info
unfolding answer get_answer
fetch_tx_info-Tells_example =
    fetch_tx_info-Tells toy toy_laws alice bob (pos 9) input sent.0 (codes "sig") get_answer answer
      5000 (some 20) (λ k. none) empty_config (codes "sig") sent.1 refl refl refl refl

-- A node that knows no account.
abbrev empty_node : Node toy
empty_node = record { recent_block_hash = some (some (7 ∷ [])); account_info = λ n k. none }

abbrev coin : TokenConfig
coin = record {
  asset = codes "COIN";
  chain = codes "SOL";
  net = [];
  decimals = pos 6;
  contract = mint;
  asset_type = [];
  base = empty_config;
  native_config = none;
}

fetched : (i : TxInput) × (fetch_tx_input toy empty_node (single (token coin)) bob ≡ ok i)
unfolding fetch_tx_input input_contract token_input key_of is_ata account_asked
fetched = (_, refl)

misdirected : (tx : Tx toy) × (token_transfer_of toy mint 6 alice bob (pos 25) fetched.0 ≡ ok tx)
unfolding token_transfer_of key_of find_associated_token_address must_key token_destination creation
    build_solana_tx fetched
misdirected = (_, refl)

fetch_tx_input-misdirects_example :
    (fetched.0.should_create_ata ≡ true) × (to_alt toy (parse_transfer toy misdirected.0) ≡ bob)
unfolding key_of
fetch_tx_input-misdirects_example =
    fetch_tx_input-misdirects toy empty_node bob bob toy_laws coin fetched.0 6 alice (pos 25)
      misdirected.0 refl (λ n. refl) fetched.1 misdirected.1
